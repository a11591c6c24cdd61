-- ===== src/Chat/Guards.antt =====
-- The checks before an answer say nothing and bill nothing (`chat` of backend/routes/chat.py).
use autonomous_ai_analyst.Base.{
  ℕ, String, List, [], ◌∷◌, ◌++◌, Bool, true, false, Option, none, some, ◌≡◌, inl, inr, refl, ap,
  ◌∙◌, ◌==◌, leb, arith, Bool-cases,
}
use autonomous_ai_analyst.Text.{is_empty}
use autonomous_ai_analyst.Common.{Principal}
use autonomous_ai_analyst.Settings.{Settings}
use autonomous_ai_analyst.Http.{
  HttpError, Result, ok, raised, server_error, llm_calls_per_hour, daily_spend, hourly_messages,
  token_budget,
}
use autonomous_ai_analyst.Conversations.{
  ConversationRecord, MessageRecord, Chats, create_conversation, get_conversation,
  count_recent_messages,
}
use autonomous_ai_analyst.Limits.{refuse, refuse_if, check_llm_quota, llm_calls, spent, reached}
use autonomous_ai_analyst.Usage.{UsageRecord}
use autonomous_ai_analyst.Database.{Database, Call, gets, or_raise, ◌>>=◌, ◌>>◌, raise_if}
use autonomous_ai_analyst.Chat.Turns.{World, ChatReply}
use autonomous_ai_analyst.Chat.Handler.{
  with_new, new_conversation, own_conversation, enter_conversation, check_ceilings,
}

-- Nothing was said, and nothing was billed.
pub record IsSilent (db db' : Database) : Type 0 where
  pub messages : db'.chats.messages ≡ db.chats.messages
  pub usage : db'.usage ≡ db.usage

-- One row for the account if a model has answered, and none otherwise.
abbrev pub IsBill : Principal → ChatReply → List UsageRecord → Type 0
IsBill p reply [] = reply.llm_enabled ≡ false
IsBill p reply (row ∷ []) =
    (reply.llm_enabled ≡ true)
    × (row.owner_id ≡ p.user_id)
    × (row.conversation_id ≡ some reply.conversation_id)
    × (row.input_tokens ≡ reply.input_tokens)
    × (row.output_tokens ≡ reply.output_tokens)
    × (row.estimated_cost ≡ reply.estimated_cost)
IsBill p reply (row ∷ row' ∷ rows) = ⊥

-- One message for the question, one for its answer, and a bill just where a model has answered.
pub record Answered (p : Principal) (reply : ChatReply) (db db' : Database) : Type 0 where
  pub question : MessageRecord
  pub answer : MessageRecord
  pub said : db'.chats.messages ≡ db.chats.messages ++ question ∷ answer ∷ []
  pub asked :
      (question.conversation_id ≡ reply.conversation_id)
      × (question.role ≡ "user")
      × (question.content ≡ reply.query)
  pub replied :
      (answer.conversation_id ≡ reply.conversation_id)
      × (answer.role ≡ "assistant")
      × (answer.content ≡ reply.answer)
  pub bill : List UsageRecord
  pub spent : db'.usage ≡ db.usage ++ bill
  pub billed : IsBill p reply bill

abbrev pub Outcome : Principal → Database → Result ChatReply → Database → Type 0
Outcome p db (raised e) db' = IsSilent db db'
Outcome p db (ok reply) db' = Answered p reply db db'

abbrev pub Quiet : {A : Type 0} → Call A → Type 0
Quiet m = (db : Database) → IsSilent db (m db).1

abbrev pub Answers : Principal → Call ChatReply → Type 0
Answers p k = (db : Database) → Outcome p db (k db).0 (k db).1

pub silent : (db : Database) → IsSilent db db
silent db = record { messages = refl; usage = refl }

after_silent :
    (p : Principal) (r : Result ChatReply) (db db1 db2 : Database)
    → IsSilent db db1
    → Outcome p db1 r db2
    → Outcome p db r db2
after_silent p (raised e) db db1 db2 s o = record {
  messages = o.messages ∙ s.messages;
  usage = o.usage ∙ s.usage;
}
after_silent p (ok reply) db db1 db2 s o = record {
  question = o.question;
  answer = o.answer;
  said = o.said ∙ ap (λ ms. ms ++ o.question ∷ o.answer ∷ []) s.messages;
  asked = o.asked;
  replied = o.replied;
  bill = o.bill;
  spent = o.spent ∙ ap (λ rows. rows ++ o.bill) s.usage;
  billed = o.billed;
}

step :
    {A : Type 0} (p : Principal) (r : Result A) (f : A → Call ChatReply) (db db1 : Database)
    → IsSilent db db1
    → ((a : A) → Answers p (f a))
    → let m : Call ChatReply = (λ _. (r, db1)) >>= f in Outcome p db (m db).0 (m db).1
step p (ok a) f db db1 s h = after_silent p (f a db1).0 db db1 (f a db1).1 s (h a db1)
step p (raised e) f db db1 s h = s

pub guard :
    {A : Type 0} (p : Principal) (m : Call A) (f : A → Call ChatReply)
    → Quiet m
    → ((a : A) → Answers p (f a))
    → Answers p (m >>= f)
guard p m f q h db = step p (m db).0 f db (m db).1 (q db) h

step-Quiet :
    {A B : Type 0} (r : Result A) (f : A → Call B) (db db1 : Database)
    → IsSilent db db1
    → ((a : A) → Quiet (f a))
    → let m : Call B = (λ _. (r, db1)) >>= f in IsSilent db (m db).1
step-Quiet (ok a) f db db1 s h =
    let t = h a db1 in record { messages = t.messages ∙ s.messages; usage = t.usage ∙ s.usage }
step-Quiet (raised e) f db db1 s h = s

pub bind-Quiet :
    {A B : Type 0} (m : Call A) (f : A → Call B)
    → Quiet m
    → ((a : A) → Quiet (f a))
    → Quiet (m >>= f)
bind-Quiet m f q h db = step-Quiet (m db).0 f db (m db).1 (q db) h

pub raise_if-Quiet : (b : Bool) (e : HttpError) → Quiet (raise_if b e)
raise_if-Quiet true e db = silent db
raise_if-Quiet false e db = silent db

pub or_raise-Quiet : {A : Type 0} (o : Option A) (e : HttpError) → Quiet (or_raise o e)
or_raise-Quiet none e = silent
or_raise-Quiet (some a) e = silent

module _ (settings : Settings) (world : World) (p : Principal) (now : ℕ) where
  created :
      (id run_key owner : String) (chats chats' : Chats)
      → create_conversation id run_key none owner now chats ≡ some chats'
      → chats'.messages ≡ chats.messages
  unfolding create_conversation
  created id run_key owner chats chats' h = ground arith

  with_new-Silent :
      (o : Option Chats) (db : Database)
      → ((chats : Chats) → o ≡ some chats → chats.messages ≡ db.chats.messages)
      → IsSilent db (with_new settings world p now o db).1
  with_new-Silent none db h = silent db
  with_new-Silent (some chats) db h =
      let t =
        or_raise-Quiet (get_conversation world.new_id none chats) server_error
          (record db { chats = chats }) in
      record { messages = t.messages ∙ h chats refl; usage = t.usage }

  new_conversation-Quiet :
      (run_key : String) → Quiet (new_conversation settings world p now run_key)
  new_conversation-Quiet run_key db =
      with_new-Silent (create_conversation world.new_id run_key none p.user_id now db.chats) db
        (created world.new_id run_key p.user_id db.chats)

  own_conversation-Quiet :
      (run_key : String) (o : Option ConversationRecord)
      → Quiet (own_conversation settings world p now run_key o)
  own_conversation-Quiet run_key none db = silent db
  own_conversation-Quiet run_key (some c) db = elim (Bool-cases (c.run_key == run_key)) [
    | inl same ↦ rw same (silent db)
    | inr other ↦ rw other (silent db)
  ]

  pub enter_conversation-Quiet :
      (id : Option String) (run_key : String)
      → Quiet (enter_conversation settings world p now id run_key)
  unfolding enter_conversation
  enter_conversation-Quiet none run_key db = new_conversation-Quiet run_key db
  enter_conversation-Quiet (some id) run_key db = elim (Bool-cases (is_empty id)) [
    | inl blank ↦ rw blank (new_conversation-Quiet run_key db)
    | inr given ↦ rw given (own_conversation-Quiet run_key _ db)
  ]

  refuse-Quiet : (e : HttpError) → Quiet (refuse p e now)
  unfolding refuse
  refuse-Quiet e db = record { messages = refl; usage = refl }

  refuse_if-Quiet : (b : Bool) (e : HttpError) → Quiet (refuse_if b p e now)
  refuse_if-Quiet true e = refuse-Quiet e
  refuse_if-Quiet false e = silent

  counted : Call (Unit {0})
  counted = gets (llm_calls settings p now) >>= λ calls.
      refuse_if (reached settings.principal_max_llm_calls_per_hour calls) p llm_calls_per_hour now

  counted-Quiet : Quiet counted
  unfolding counted
  counted-Quiet db =
      refuse_if-Quiet
        (reached settings.principal_max_llm_calls_per_hour (llm_calls settings p now db))
        llm_calls_per_hour db

  spent-Quiet : Quiet (
      counted >> gets (spent settings p now) >>= λ cost.
      refuse_if (reached settings.principal_daily_spend_limit cost) p daily_spend now)
  spent-Quiet =
      bind-Quiet (counted >> gets (spent settings p now))
        (λ cost. refuse_if (reached settings.principal_daily_spend_limit cost) p daily_spend now)
        (bind-Quiet counted (λ u. gets (spent settings p now)) counted-Quiet (λ u db. silent db))
        (λ cost. refuse_if-Quiet (reached settings.principal_daily_spend_limit cost) daily_spend)

  check_llm_quota-Quiet : Quiet (check_llm_quota settings p now)
  unfolding check_llm_quota counted
  check_llm_quota-Quiet db = elim (Bool-cases settings.auth_enabled) [
    | inl on ↦ rw on (spent-Quiet db)
    | inr off ↦ rw off (silent db)
  ]

  abbrev within_budget : ConversationRecord → Call (Unit {0})
  within_budget c = raise_if (leb world.chat_token_budget c.total_tokens) token_budget

  abbrev within_hour : ConversationRecord → Call (Unit {0})
  within_hour c = do
    recent ← gets (λ db. count_recent_messages c.conversation_id 60 now db.chats)
    raise_if (leb world.chat_max_messages_per_hour recent) hourly_messages
    within_budget c

  within_hour-Quiet : (c : ConversationRecord) → Quiet (within_hour c)
  within_hour-Quiet c db =
      let recent = count_recent_messages c.conversation_id 60 now db.chats in
      bind-Quiet (raise_if (leb world.chat_max_messages_per_hour recent) hourly_messages)
        (λ u. within_budget c)
        (raise_if-Quiet (leb world.chat_max_messages_per_hour recent) hourly_messages)
        (λ u. raise_if-Quiet (leb world.chat_token_budget c.total_tokens) token_budget) db

  pub check_ceilings-Quiet :
      (c : ConversationRecord) → Quiet (check_ceilings settings world p now c)
  unfolding check_ceilings
  check_ceilings-Quiet c =
      bind-Quiet (check_llm_quota settings p now) (λ u. within_hour c) check_llm_quota-Quiet
        (λ u. within_hour-Quiet c)
