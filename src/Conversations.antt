-- ===== src/Conversations.antt =====
-- Analyst conversations and their messages: `ConversationRecord`, `MessageRecord` and the helpers of
-- backend/db.py. The database draws a message's id.
use autonomous_ai_analyst.Base.{
  ℕ, ◌+◌, ◌-◌, ◌*◌, String, List, [], ◌∷◌, ◌++◌, Bool, true, not, ◌&&◌, Option, none, some, ◌==◌,
  leb, select, delete_where, count, length, take, if◌then◌else◌,
}
use autonomous_ai_analyst.Common.{Json, owned_by}
use autonomous_ai_analyst.Owned.{get_owned}
use autonomous_ai_analyst.Table.{update, add, order_by, ascending, descending}
use autonomous_ai_analyst.Text.{strip, is_empty, head_chars}

pub record ConversationRecord : Type 0 where
  pub conversation_id : String
  pub run_key : String
  pub owner_id : String
  pub title : Option String
  pub total_tokens : ℕ
  pub created_at : ℕ
  pub updated_at : ℕ

pub record MessageRecord : Type 0 where
  pub id : ℕ
  pub conversation_id : String
  pub role : String
  pub content : String
  pub steps : List Json
  pub input_tokens : ℕ
  pub output_tokens : ℕ
  pub created_at : ℕ

-- The two tables.
pub record Chats : Type 0 where
  pub conversations : List ConversationRecord
  pub messages : List MessageRecord

abbrev pub conversation_key : ConversationRecord → String
conversation_key c = c.conversation_id

abbrev pub conversation_owner : ConversationRecord → String
conversation_owner c = c.owner_id

-- `none`: the id is taken.
unfoldable pub create_conversation :
    String → String → Option String → String → ℕ → Chats → Option Chats
create_conversation conversation_id run_key title owner_id now chats =
    let row : ConversationRecord = record {
      conversation_id = conversation_id;
      run_key = run_key;
      owner_id = owner_id;
      title = title;
      total_tokens = 0;
      created_at = now;
      updated_at = now;
    } in
    elim (add conversation_key row chats.conversations) [
      | none ↦ none
      | some conversations ↦ some (record chats { conversations = conversations })
    ]

unfoldable pub get_conversation : String → Option String → Chats → Option ConversationRecord
get_conversation conversation_id owner_id chats =
    get_owned conversation_key conversation_owner conversation_id owner_id chats.conversations

unfoldable pub list_conversations : String → ℕ → Option String → Chats → List ConversationRecord
list_conversations run_key limit owner_id chats = take limit (
    order_by (descending λ (c : ConversationRecord). c.updated_at) (
      select (λ (c : ConversationRecord). (c.run_key == run_key) && owned_by owner_id c.owner_id)
        chats.conversations))

abbrev pub in_conversation : String → MessageRecord → Bool
in_conversation conversation_id m = m.conversation_id == conversation_id

-- In the order of their ids.
unfoldable pub list_messages : String → ℕ → Chats → List MessageRecord
list_messages conversation_id limit chats = take limit (
    order_by (ascending λ (m : MessageRecord). m.id)
      (select (in_conversation conversation_id) chats.messages))

-- `not conversation.title`
abbrev pub is_untitled : Option String → Bool
is_untitled none = true
is_untitled (some title) = is_empty title

-- The first thing asked becomes the title.
abbrev pub titled : String → String → Option String → Option String
titled role content title =
    if is_untitled title && (role == "user") && not (is_empty (strip content))
    then some (head_chars 80 (strip content))
    else title

abbrev pub touched : MessageRecord → ConversationRecord → ConversationRecord
touched m c = record c {
  title = titled m.role m.content c.title;
  total_tokens = c.total_tokens + (m.input_tokens + m.output_tokens);
  updated_at = m.created_at;
}

-- A message is stored also where its conversation is missing.
unfoldable pub append_message : MessageRecord → Chats → Chats
append_message m chats = record {
  conversations = update conversation_key m.conversation_id (touched m) chats.conversations;
  messages = chats.messages ++ m ∷ [];
}

unfoldable pub count_recent_messages : String → ℕ → ℕ → Chats → ℕ
count_recent_messages conversation_id since_minutes now chats =
    count
      (λ (m : MessageRecord).
        in_conversation conversation_id m
        && (m.role == "user")
        && leb (now - since_minutes * 60) m.created_at)
      chats.messages

abbrev pub delete_messages_of : List ConversationRecord → List MessageRecord → List MessageRecord
delete_messages_of [] messages = messages
delete_messages_of (c ∷ cs) messages =
    delete_messages_of cs (delete_where (in_conversation c.conversation_id) messages)

abbrev pub about_run : String → ConversationRecord → Bool
about_run run_key c = c.run_key == run_key

-- The new tables, and how many conversations went.
unfoldable pub delete_conversations_for_run : String → Chats → Chats × ℕ
delete_conversations_for_run run_key chats =
    let rows = select (about_run run_key) chats.conversations in
    (
      record {
        conversations = delete_where (about_run run_key) chats.conversations;
        messages = delete_messages_of rows chats.messages;
      },
      length rows,
    )
