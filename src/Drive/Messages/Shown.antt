-- ===== src/Drive/Messages/Shown.antt =====
-- What the list of messages shows, and which message is opened.
use polarcloud.Prelude.{
  ℕ, ◌+◌, ◌≡◌, refl, ap, sym, ◌∙◌, inl, inr, List, [], ◌∷◌, ◌++◌, map, append-nil, append_assoc,
  none, some, Text, js, length, arith, Option-cases,
}
use polarcloud.Strings.{to_string}
use polarcloud.Browser.{no_payload}
use polarcloud.Browser.View.{children, text_in}
use polarcloud.Page.{Page, Message, Request, on_message_read, session_of}
use polarcloud.Drive.Listing.Shown.{entries}
use polarcloud.Drive.Messages.{
  message_row, display_messages, on_messages_answer, find_message, open_message,
}

display_messages-children :
    (k : ℕ) (ms : List Message) (p : Page)
    → children "#messageContent" (display_messages k ms p).calls
      ≡ children "#messageContent" p.calls ++ map message_row ms
unfolding display_messages children
display_messages-children k [] p = sym (append-nil _)
display_messages-children k (m ∷ ms) p =
    display_messages-children (k + 1) ms _ ∙ append_assoc (children "#messageContent" p.calls) _ _

display_messages-text_in :
    (k : ℕ) (ms : List Message) (p : Page)
    → text_in "#messageLength" (display_messages k ms p).calls ≡ some (to_string (k + length ms))
unfolding display_messages text_in
display_messages-text_in k [] p = ap (λ (n : ℕ). some (to_string n)) (omega arith)
display_messages-text_in k (m ∷ ms) p =
    display_messages-text_in (k + 1) ms _ ∙ ap (λ (n : ℕ). some (to_string n)) (omega arith)

display_messages-user_message :
    (k : ℕ) (ms : List Message) (p : Page) → (display_messages k ms p).user_message ≡ p.user_message
unfolding display_messages
display_messages-user_message k [] p = refl
display_messages-user_message k (m ∷ ms) p = display_messages-user_message (k + 1) ms _

-- When the messages arrive, the list gets a row for each, in order, the number shown is how many
-- there are, and the page keeps them.
on_messages_answer-entries :
    (msg : Text) (ms : List Message) (p q : Page)
    → q ≡ on_messages_answer (entries msg ms) p
    → (children "#messageContent" q.calls
        ≡ children "#messageContent" p.calls ++ map message_row ms)
      × (text_in "#messageLength" q.calls ≡ some (to_string (length ms)))
      × (q.user_message ≡ some ms)
unfolding on_messages_answer
on_messages_answer-entries msg ms p q e = rw e (
  display_messages-children 0 ms _,
  display_messages-text_in 0 ms _ ∙ ap (λ (n : ℕ). some (to_string n)) (omega arith),
  display_messages-user_message 0 ms _,
)

-- The request that marks a message as read.
abbrev pub read_request : ℕ → Page → Request
read_request id p = record {
  url = p.center_url ++ (js "/api/message/readed/" ++ to_string id);
  verb = js "GET";
  session = some (session_of p);
  payload = no_payload;
  callback = on_message_read;
}

find_message-id :
    (id : ℕ) (ms : List Message) (m : Message) → find_message id ms ≡ some m → m.id ≡ id
unfolding find_message
find_message-id id [] m e = cc
find_message-id id (n ∷ ms) m e = ground (arith, find_message-id id ms m)

-- Opening a message of the kept list marks that message, and no other, as read; an id that is not in
-- the list asks nothing.
open_message-pending :
    (id : ℕ) (ms : List Message) (p : Page)
    → p.user_message ≡ some ms
    → (open_message id p).pending
      ≡ elim (find_message id ms) [ none ↦ p.pending | some m ↦ read_request id p ∷ p.pending ]
unfolding open_message
open_message-pending id ms p e = elim (Option-cases (find_message id ms)) [
  | inl n ↦ ground arith
  | inr (m, f) ↦ ground (arith, find_message-id id ms m f)
]
