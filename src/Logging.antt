-- ===== src/Logging.antt =====
-- internal/httplog/httplog.go: the status that a request is logged with. An http.ResponseWriter is
-- what it has sent: a status, by the first WriteHeader or Write, and the bytes of the body. An
-- informational status (1xx), which no handler sends, is left out.
use nx_remote_cache.Base.{
  Bool, List, Option, [], all, ap, arith, false, none, refl, some, sym, true, ℕ, ◌++◌, ◌∙◌, ◌∷◌,
  ◌≡◌,
}

pub record ResponseWriter : Type 0 where
  pub sent : Option ℕ
  pub body : List ℕ

-- What a handler does to its writer.
pub data Call : Type 0 where
  write_header : ℕ → Call
  write : List ℕ → Call

abbrev or_status : Option ℕ → ℕ → ℕ
or_status none status = status
or_status (some first) status = first

-- A second WriteHeader is ignored; a Write without one sends 200.
abbrev send : Call → ResponseWriter → ResponseWriter
send (write_header code) w = record w { sent = some (or_status w.sent code) }
send (write bs) w = record { sent = some (or_status w.sent 200); body = w.body ++ bs }

pub record StatusRecorder : Type 0 where
  pub response_writer : ResponseWriter
  pub status : ℕ

-- WriteHeader is the recorder's own; Write is the writer's that it embeds.
recorder_call : Call → StatusRecorder → StatusRecorder
recorder_call (write_header code) rec = record {
  response_writer = send (write_header code) rec.response_writer;
  status = code;
}
recorder_call (write bs) rec = record rec { response_writer = send (write bs) rec.response_writer }

recorder_calls : List Call → StatusRecorder → StatusRecorder
recorder_calls [] rec = rec
recorder_calls (c ∷ cs) rec = recorder_calls cs (recorder_call c rec)

-- WithLogging: the recorder after the handler's calls, from whose status the log line is made.
unfoldable pub with_logging : List Call → ResponseWriter → StatusRecorder
unfolding recorder_calls recorder_call
with_logging calls w = recorder_calls calls (record { response_writer = w; status = 200 })

abbrev is_write : Call → Bool
is_write (write bs) = true
is_write (write_header code) = false

-- A handler as those of the repository: one WriteHeader at most, before any Write.
abbrev pub is_orderly : List Call → Bool
is_orderly [] = true
is_orderly (c ∷ cs) = all is_write cs

abbrev fresh : ResponseWriter
fresh = record { sent = none; body = [] }

writes-status :
    (cs : List Call) (rec : StatusRecorder) (code : ℕ)
    → all is_write cs ≡ true
    → rec.response_writer.sent ≡ some code
    → rec.status ≡ code
    → ((recorder_calls cs rec).response_writer.sent ≡ some (recorder_calls cs rec).status)
unfolding recorder_calls recorder_call
writes-status [] rec code h sent same = sent ∙ ap some (sym same)
writes-status (write_header c ∷ cs) rec code h sent same = absurd (ground arith)
writes-status (write bs ∷ cs) rec code h sent same = writes-status cs _ code h (ground arith) same

-- A request whose handler calls WriteHeader at most once, and before any Write, is logged with the
-- status that the client gets; net/http sends 200 if the handler sends nothing.
pub with_logging-status :
    (calls : List Call)
    → is_orderly calls ≡ true
    → (with_logging calls fresh).status
      ≡ or_status (with_logging calls fresh).response_writer.sent 200
unfolding with_logging
with_logging-status [] h = refl
with_logging-status (write_header code ∷ cs) h =
    let sent =
      writes-status cs (record { response_writer = send (write_header code) fresh; status = code })
        code h refl refl in
    ground (arith, sent)
with_logging-status (write bs ∷ cs) h =
    let sent =
      writes-status cs (record { response_writer = send (write bs) fresh; status = 200 }) 200 h refl
        refl in
    ground (arith, sent)
