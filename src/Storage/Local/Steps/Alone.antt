-- ===== src/Storage/Local/Steps/Alone.antt =====
-- A Put whose system calls nothing separates.
use nx_remote_cache.Base.{
  Result, Result-cases, Text, arith, bytes, inl, inr, refl, suc, zero, ℕ, ◌++◌, ◌≡◌,
}
use nx_remote_cache.Storage.{Error}
use nx_remote_cache.Storage.Disk.{not_exist, exist, other, Disk, stat, create_temp, remove}
use nx_remote_cache.Storage.Local.{finalize, write_artifact, put_new, put}
use nx_remote_cache.Storage.Local.Steps.{
  PutState, Upload, put_step, after_stat, after_create, after_close, link_result, returned, linking,
  checking, creating, copying,
}

unfoldable pub put_steps : Upload → ℕ → PutState → Disk → PutState × Disk
put_steps u zero p d = (p, d)
put_steps u (suc n) p d = let (p', d') = put_step u p d in put_steps u n p' d'

module _ (u : Upload) where
  put_steps-returned :
      (n : ℕ) (res : Result Error (Unit {0})) (d : Disk)
      → put_steps u n (returned res) d ≡ (returned res, d)
  unfolding put_steps put_step
  put_steps-returned zero res d = refl
  put_steps-returned (suc n) res d = put_steps-returned n res d

  put_steps-linking :
      (tmp : Text) (d : Disk)
      → put_steps u 2 (linking tmp) d
        ≡ (let (res, d') = finalize tmp u.hash d in (returned res, (remove tmp d').1))
  unfolding put_steps put_step finalize link_result
  put_steps-linking tmp d = ground arith

  put_steps-copying :
      (tmp : Text) (d : Disk)
      → put_steps u 4 (copying tmp) d ≡ (
          let (res, d') = write_artifact tmp u.hash u.reader u.size d in
          (returned res, (remove tmp d').1))
  unfolding put_steps put_step write_artifact after_close link_result finalize
  put_steps-copying tmp d = ground arith

  put_steps-creating :
      (d : Disk)
      → put_steps u 5 creating d
        ≡ (let (res, d') = put_new u.hash u.reader u.size d in (returned res, d'))
  unfolding put_steps put_step put_new after_create
  put_steps-creating d = elim (Result-cases (create_temp (u.hash ++ bytes ".tmp-") d).0) [
    | inr (x, e) ↦ ground arith
    | inl (tmp, e) ↦
        let d' = (create_temp (u.hash ++ bytes ".tmp-") d).1 in
        ground (arith, put_steps-copying tmp d')
  ]

  -- Put is its six system calls one after the other: to run them without another call in between
  -- gives what Put returns and leaves the disk as Put leaves it.
  pub put_steps-put :
      (d : Disk)
      → put_steps u 6 checking d
        ≡ (let (res, d') = put u.hash u.reader u.size d in (returned res, d'))
  unfolding put_steps put_step put after_stat
  put_steps-put d = elim (Result-cases (stat u.hash d).0) [
    | inl (n, e) ↦ ground arith
    | inr (not_exist, e) ↦ ground (arith, put_steps-creating (stat u.hash d).1)
    | inr (exist, e) ↦ ground arith
    | inr (other, e) ↦ ground arith
  ]
