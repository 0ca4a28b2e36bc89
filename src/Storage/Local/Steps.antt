-- ===== src/Storage/Local/Steps.antt =====
-- Local.Put one system call at a time, and many calls of Put whose system calls interleave in any
-- order.
pub mod Alone
pub mod Frame
pub mod Knowledge
pub mod Files
pub mod Invariant
pub mod Order
use nx_remote_cache.Base.{
  List, Result, Text, [], bytes, eq_ℤ, err, if◌then◌else◌, ok, pos, ℕ, ℤ, ◌++◌, ◌==◌, ◌∷◌,
}
use nx_remote_cache.Storage.{Error, already_exists, failure, Reader}
use nx_remote_cache.Storage.Disk.{
  OsError, not_exist, exist, Node, Disk, stat, create_temp, copy_to, close, link, remove,
}

-- The system call that is next, with the temporary file and what Put already knows; at the end, what
-- Put returns.
pub data PutState : Type 0 where
  checking creating : PutState
  copying : Text → PutState
  closing : Text → Result OsError ℕ → PutState
  linking : Text → PutState
  removing : Text → Result Error (Unit {0}) → PutState
  returned : Result Error (Unit {0}) → PutState

after_stat : Result OsError Node → PutState
after_stat (ok _) = returned (err already_exists)
after_stat (err not_exist) = creating
after_stat (err _) = returned (err failure)

after_create : Result OsError Text → PutState
after_create (ok tmp) = copying tmp
after_create (err _) = returned (err failure)

after_close : Text → ℤ → Result OsError ℕ → Result OsError (Unit {0}) → PutState
after_close tmp size (err _) _ = removing tmp (err failure)
after_close tmp size (ok n) (err _) = removing tmp (err failure)
after_close tmp size (ok n) (ok _) =
    if eq_ℤ (pos n) size then linking tmp else removing tmp (err failure)

link_result : Result OsError (Unit {0}) → Result Error (Unit {0})
link_result (ok _) = ok tt
link_result (err exist) = err already_exists
link_result (err _) = err failure

pub record Upload : Type 0 where
  pub hash : Text
  pub reader : Reader
  pub size : ℤ

unfoldable pub put_step : Upload → PutState → Disk → PutState × Disk
unfolding after_stat after_create after_close link_result
put_step u checking d = let (found, d') = stat u.hash d in (after_stat found, d')
put_step u creating d =
    let (created, d') = create_temp (u.hash ++ bytes ".tmp-") d in (after_create created, d')
put_step u (copying tmp) d =
    let (copied, d') = copy_to tmp u.reader u.size d in (closing tmp copied, d')
put_step u (closing tmp copied) d =
    let (closed, d') = close d in (after_close tmp u.size copied closed, d')
put_step u (linking tmp) d =
    let (linked, d') = link tmp u.hash d in (removing tmp (link_result linked), d')
put_step u (removing tmp res) d = (returned res, (remove tmp d).1)
put_step u (returned res) d = (returned res, d)

-- The disk that all uploads share, and how far each of them is.
pub record System : Type 0 where
  pub disk : Disk
  pub states : ℕ → PutState

abbrev pub update : ℕ → PutState → (ℕ → PutState) → ℕ → PutState
update i p states j = if i == j then p else states j

module _ (uploads : ℕ → Upload) where
  -- The next system call of the i-th upload.
  abbrev pub advance : ℕ → System → System
  advance i s =
      let (p, d) = put_step (uploads i) (s.states i) s.disk in
      record { disk = d; states = update i p s.states }

  -- The system calls in the order in which the uploads come up in the schedule.
  unfoldable pub run : List ℕ → System → System
  run [] s = s
  run (i ∷ schedule) s = run schedule (advance i s)

abbrev pub start : Disk → System
start d = record { disk = d; states = λ i. checking }
