-- ===== src/Drive/Messages.antt =====
-- file-index.js: the user's unread messages.
pub mod Shown
use polarcloud.Prelude.{
  ℕ, suc, ◌+◌, not, List, [], ◌∷◌, ◌++◌, Option, none, some, pos, Text, js, cat, ◌==◌,
  if◌then◌else◌,
}
use polarcloud.Strings.{to_string}
use polarcloud.Browser.{append, remove_children, set_text, log, query, no_payload}
use polarcloud.Browser.Values.{num}
use polarcloud.Page.{
  Message, Page, Answer, on_messages, on_message_read, call, call_all, ask_center,
}
use polarcloud.Drive.Panels.{open_panel, message_panel}

-- `myMessage`
unfoldable pub my_message : Page → Page
my_message p =
    let p1 = call_all (remove_children "#messageContent" ∷ set_text "#messageLength" [] ∷ []) p in
    ask_center (js "/api/message/mine") (js "GET") (query (("readed", num (pos 0)) ∷ []))
      on_messages p1

unfoldable pub message_row : Message → Text
message_row m = cat (
    js "   <li>  <a href=\"#\" onclick=\"openMessage("
    ∷ to_string m.id
    ∷ js ")\">"
    ∷ m.title
    ∷ js "</a>  </li>"
    ∷ [])

-- `displayMessage`
abbrev pub display_message : Message → Page → Page
display_message m p = call (append "#messageContent" (message_row m)) p

-- The loop over `res.data`, which counts in `k`.
unfoldable pub display_messages : ℕ → List Message → Page → Page
display_messages k [] p = call (set_text "#messageLength" (to_string k)) p
display_messages k (m ∷ ms) p = display_messages (k + 1) ms (display_message m p)

unfoldable pub on_messages_answer : Answer (List Message) → Page → Page
on_messages_answer res p = if res.status == 500 then call (log res.msg) p else elim res.body [
  | none ↦ call (log res.msg) p
  | some ms ↦ display_messages 0 ms (record p { user_message = some ms })
]

-- The first message of the id.
pub find_message : ℕ → List Message → Option Message
find_message id [] = none
find_message id (m ∷ ms) = if m.id == id then some m else find_message id ms

-- The body of the loop of `openMessage`, at the message.
unfoldable pub show_message : Message → Page → Page
show_message m p =
    ask_center (js "/api/message/readed/" ++ to_string m.id) (js "GET") no_payload on_message_read
      (open_panel "#message-layer" (message_panel m.title m.content) p)

-- `openMessage`. With no list of messages kept, reading its length throws.
unfoldable pub open_message : ℕ → Page → Page
unfolding show_message
open_message id p =
    let p1 = call_all (remove_children "#messageContent" ∷ set_text "#messageLength" [] ∷ []) p in
    elim p.user_message [
      | none ↦ p1
      | some ms ↦ elim (find_message id ms) [ none ↦ p1 | some m ↦ show_message m p1 ]
    ]

unfoldable pub on_message_read_answer : Answer (List Message) → Page → Page
on_message_read_answer res p =
    if res.status == 500 then p else elim res.body [ none ↦ p | some ms ↦ display_messages 0 ms p ]
