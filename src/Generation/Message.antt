-- ===== src/Generation/Message.antt =====
-- The state of an assistant message: `update_message_status` of `ChatRepository`
-- (backend/repositories/chat_repo.py) and `ChatMessageUpdater.update_as_failed`
-- (backend/services/chat_service.py).
use dewflow.Base.{ℕ, ◌≡◌, is_some, arith, String, Option, none, some, ◌==◌, find, update_where}
use dewflow.Generation.Row.{ChatMessage, ChatDb, MessageStatus, Metadata}

-- The arguments of `update_message_status`; `none` leaves the column alone.
pub record MessageUpdate : Type 0 where
  pub message_id : ℕ
  pub status : MessageStatus
  pub content : Option String
  pub latency_ms : Option ℕ
  pub tokens_input : Option ℕ
  pub tokens_output : Option ℕ
  pub search_context : Option String
  pub message_metadata : Option Metadata

abbrev or_else {ℓ} : {A : Type ℓ} → Option A → A → A
or_else none old = old
or_else (some new) old = new

abbrev or_stay {ℓ} : {A : Type ℓ} → Option A → Option A → Option A
or_stay none old = old
or_stay (some new) old = some new

unfoldable pub update_message : MessageUpdate → ChatMessage → ChatMessage
update_message u m = record m {
  status = u.status;
  content = or_else u.content m.content;
  latency_ms = or_stay u.latency_ms m.latency_ms;
  tokens_input = or_else u.tokens_input m.tokens_input;
  tokens_output = or_else u.tokens_output m.tokens_output;
  search_context = or_stay u.search_context m.search_context;
  message_metadata = or_else u.message_metadata m.message_metadata;
}

abbrev pub message_key : ChatMessage → ℕ
message_key m = m.id

-- None if there is no such message, and then nothing changes.
unfoldable pub update_message_status : MessageUpdate → ChatDb → Option ChatMessage × ChatDb
update_message_status u db = elim (find message_key u.message_id db.messages) [
  | none ↦ (none, db)
  | some m ↦ (
    some (update_message u m),
    record db {
      messages = update_where (λ x. x.id == u.message_id) (update_message u) db.messages;
    },
  )
]

unfoldable pub update_as_failed : ℕ → String → Metadata → ChatDb → Option ChatMessage × ChatDb
unfolding update_message_status
update_as_failed message_id error_content message_metadata = update_message_status (record {
  message_id = message_id;
  status = MessageStatus.failed;
  content = some error_content;
  latency_ms = none;
  tokens_input = none;
  tokens_output = none;
  search_context = none;
  message_metadata = some message_metadata;
})

-- The update finds its message exactly if it is there, and touches no request.
pub is_some-update_as_failed :
    (m : ℕ) (t : String) (d : Metadata) (db : ChatDb)
    → is_some (update_as_failed m t d db).0 ≡ is_some (find message_key m db.messages)
unfolding update_as_failed
is_some-update_as_failed m t d db = ground arith

pub requests-update_as_failed :
    (m : ℕ) (t : String) (d : Metadata) (db : ChatDb)
    → (update_as_failed m t d db).1.requests ≡ db.requests
unfolding update_as_failed
requests-update_as_failed m t d db = ground arith
