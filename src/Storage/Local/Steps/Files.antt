-- ===== src/Storage/Local/Steps/Files.antt =====
-- The files that an upload knows of: its temporary file, and the artifact that it has stored.
use mathlib.Core.Path.{subst}
use nx_remote_cache.Base.{
  List, Text, arith, bytes, err, ok, some, some_inj, sym, text_eq_iff, true, ◌++◌, ◌∙◌, ◌≡◌, ◌≢◌,
}
use nx_remote_cache.Storage.{valid_hash}
use nx_remote_cache.Storage.Disk.{Node}
use nx_remote_cache.Storage.Local.Upload.{ne_temp}
use nx_remote_cache.Storage.Local.Steps.{
  PutState, Upload, returned, removing, linking, checking, creating, copying, closing,
}
use nx_remote_cache.Storage.Local.Steps.Frame.{temp_of, is_won}
use nx_remote_cache.Storage.Local.Steps.Knowledge.{IsTemp, IsStored, Knows}

module _ (u : Upload) where
  pub won-IsStored :
      (p : PutState) (ns : List Node) → is_won p ≡ true → Knows u p ns → IsStored u ns
  won-IsStored (removing tmp (ok y)) ns e (_, stored) = stored
  won-IsStored (returned (ok y)) ns e stored = stored
  won-IsStored checking ns e k = absurd (ground arith)
  won-IsStored creating ns e k = absurd (ground arith)
  won-IsStored (copying tmp) ns e k = absurd (ground arith)
  won-IsStored (closing tmp res) ns e k = absurd (ground arith)
  won-IsStored (linking tmp) ns e k = absurd (ground arith)
  won-IsStored (removing tmp (err x)) ns e k = absurd (ground arith)
  won-IsStored (returned (err x)) ns e k = absurd (ground arith)

  IsTemp-same :
      (t tmp : Text) (ns : List Node) → some t ≡ some tmp → IsTemp u t ns → IsTemp u tmp ns
  IsTemp-same t tmp ns e k = subst (λ x. IsTemp u x ns) (some_inj e) k

  pub temp_of-IsTemp :
      (p : PutState) (ns : List Node) (tmp : Text)
      → temp_of p ≡ some tmp
      → Knows u p ns
      → IsTemp u tmp ns
  temp_of-IsTemp checking ns tmp e k = absurd (ground arith)
  temp_of-IsTemp creating ns tmp e k = absurd (ground arith)
  temp_of-IsTemp (copying t) ns tmp e k = IsTemp-same t tmp ns e k
  temp_of-IsTemp (closing t (err x)) ns tmp e k = IsTemp-same t tmp ns e k
  temp_of-IsTemp (closing t (ok n)) ns tmp e (k, _) = IsTemp-same t tmp ns e k
  temp_of-IsTemp (linking t) ns tmp e (k, _, _, _) = IsTemp-same t tmp ns e k
  temp_of-IsTemp (removing t (err x)) ns tmp e k = IsTemp-same t tmp ns e k
  temp_of-IsTemp (removing t (ok y)) ns tmp e (k, _) = IsTemp-same t tmp ns e k
  temp_of-IsTemp (returned res) ns tmp e k = absurd (ground arith)

  -- No temporary file has a hash for its name.
  pub IsTemp-ne : (tmp j : Text) (ns : List Node) → IsTemp u tmp ns → valid_hash j ≡ true → tmp ≢ j
  IsTemp-ne tmp j ns ((s, named), _, _) v e =
      let apart = ne_temp u.hash s j v in
      let same = (text_eq_iff ((u.hash ++ bytes ".tmp-") ++ s) j).1 (sym named ∙ e) in
      cc (apart, same)
