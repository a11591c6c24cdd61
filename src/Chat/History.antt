-- ===== src/Chat/History.antt =====
-- Which messages the model is asked with (`chat` of backend/routes/chat.py, `list_messages` of
-- backend/db.py).
use mathlib.Core.List.{append_assoc, append-nil}
use autonomous_ai_analyst.Base.{
  ℕ, ◌<◌, ◌≤◌, ◌/◌, ◌⊎◌, ltb→lt, List, [], ◌∷◌, ◌++◌, true, ◌≡◌, refl, sym, ap, ◌∙◌, ltb, take, All,
  All-map, All-select, select, select-append, count, take-append, eq→==, arith, Bool-cases, inl,
  inr, if◌then◌else◌,
}
use autonomous_ai_analyst.Table.{order_by, ascending, order_by-append, length-order_by}
use autonomous_ai_analyst.Conversations.{
  MessageRecord, Chats, in_conversation, append_message, list_messages,
}
use autonomous_ai_analyst.Common.{Principal}
use autonomous_ai_analyst.Settings.{Settings}
use autonomous_ai_analyst.Agent.Loop.{Turn}
use autonomous_ai_analyst.Agent.Trim.{trim_to_budget, trim_to_budget-keeps}
use autonomous_ai_analyst.Chat.Turns.{World, turns_of, asking, turns_from_history}
use autonomous_ai_analyst.Chat.Handler.{asked_turns}

abbrev message_id : MessageRecord → ℕ
message_id m = m.id

-- What a conversation is listed as after a message with the greatest id so far.
list_messages-append :
    (limit : ℕ) (m : MessageRecord) (chats : Chats)
    → All (λ (old : MessageRecord). old.id < m.id) chats.messages
    → list_messages m.conversation_id limit (append_message m chats)
      ≡ list_messages m.conversation_id limit chats
        ++ (if ltb (count (in_conversation m.conversation_id) chats.messages) limit
            then m ∷ []
            else [])
unfolding list_messages append_message
list_messages-append limit m chats older =
    let mine = select (in_conversation m.conversation_id) chats.messages in
    let sorted = order_by (ascending message_id) mine in
    let picked : select (in_conversation m.conversation_id) (chats.messages ++ m ∷ [])
        ≡ mine ++ m ∷ [] =
      select-append (in_conversation m.conversation_id) chats.messages (m ∷ [])
      ∙ ap (λ b. mine ++ (if b then m ∷ [] else []))
          (eq→== m.conversation_id m.conversation_id refl) in
    let below =
      All-map (λ (old : MessageRecord). old.id < m.id) (λ old. ascending message_id old m ≡ true)
        mine (λ old h. ground arith)
        (All-select (λ (old : MessageRecord). old.id < m.id) (in_conversation m.conversation_id)
          chats.messages older) in
    ap (λ rows. take limit (order_by (ascending message_id) rows)) picked
    ∙ ap (take limit) (order_by-append (ascending message_id) mine m below)
    ∙ take-append limit sorted m
    ∙ ap (λ n. take limit sorted ++ (if ltb n limit then m ∷ [] else []))
        (length-order_by (ascending message_id) mine)

turns_of-user : (m : MessageRecord) → m.role ≡ "user" → turns_of m ≡ asking m.content ∷ []
turns_of-user m role = rw (eq→== m.role "user" role) refl

turns-append :
    (xs ys : List MessageRecord)
    → turns_from_history (xs ++ ys) ≡ turns_from_history xs ++ turns_from_history ys
unfolding turns_from_history
turns-append [] ys = refl
turns-append (x ∷ xs) ys =
    ap (λ ts. turns_of x ++ ts) (turns-append xs ys)
    ∙ sym (append_assoc (turns_of x) (turns_from_history xs) (turns_from_history ys))

turns_from_history-append_message :
    (m : MessageRecord) (chats : Chats)
    → m.role ≡ "user"
    → All (λ (old : MessageRecord). old.id < m.id) chats.messages
    → turns_from_history (list_messages m.conversation_id 200 (append_message m chats))
      ≡ turns_from_history (list_messages m.conversation_id 200 chats)
        ++ (if ltb (count (in_conversation m.conversation_id) chats.messages) 200
            then asking m.content ∷ []
            else [])
unfolding turns_from_history
turns_from_history-append_message m chats role older =
    let old = list_messages m.conversation_id 200 chats in
    let n = count (in_conversation m.conversation_id) chats.messages in
    ap turns_from_history (list_messages-append 200 m chats older)
    ∙ turns-append old (if ltb n 200 then m ∷ [] else [])
    ∙ elim (Bool-cases (ltb n 200)) [
      | inl room ↦ rw room (ap (λ ts. turns_from_history old ++ (ts ++ [])) (turns_of-user m role))
      | inr full ↦ rw full refl
    ]

-- A question, stored under the greatest id so far, is the last turn that the model is asked with, after
-- the trim too, while its conversation has fewer than 200 messages. From then on the model is asked
-- with the turns that it would have been asked with before the question.
pub asked_turns-append_message :
    (settings : Settings) (world : World) (p : Principal) (now : ℕ) (m : MessageRecord)
    (chats : Chats)
    → m.role ≡ "user"
    → All (λ (old : MessageRecord). old.id < m.id) chats.messages
    → ((count (in_conversation m.conversation_id) chats.messages < 200)
        × ((earlier : List Turn) × ((asked_turns settings world p now m.conversation_id
                (append_message m chats)).0
              ≡ earlier ++ asking m.content ∷ [])))
      ⊎ ((200 ≤ count (in_conversation m.conversation_id) chats.messages)
          × (asked_turns settings world p now m.conversation_id (append_message m chats)
              ≡ asked_turns settings world p now m.conversation_id chats))
unfolding asked_turns
asked_turns-append_message settings world p now m chats role older =
    let n = count (in_conversation m.conversation_id) chats.messages in
    let old = turns_from_history (list_messages m.conversation_id 200 chats) in
    let half = world.chat_token_budget / 2 in
    let listed = turns_from_history-append_message m chats role older in
    elim (Bool-cases (ltb n 200)) [
      | inl room ↦
          let last = listed ∙ ap (λ b. old ++ (if b then asking m.content ∷ [] else [])) room in
          let (earlier, ends) =
            trim_to_budget-keeps world.turn_cost old (asking m.content) half refl in
          inl (
            ltb→lt n 200 room,
            (earlier, ap (λ ts. (trim_to_budget world.turn_cost ts half).0) last ∙ ends),
          )
      | inr full ↦
          let same =
            listed
            ∙ ap (λ b. old ++ (if b then asking m.content ∷ [] else [])) full
            ∙ append-nil old in
          inr (ground (arith, full), ap (λ ts. trim_to_budget world.turn_cost ts half) same)
    ]
