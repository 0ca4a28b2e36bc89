-- ===== src/Storage/Local/Steps/Order.antt =====
-- Every operation of the local backend leaves the directory in order, and so do uploads whose
-- system calls interleave.
use mathlib.Core.Path.{subst}
use nx_remote_cache.Base.{List, Text, [], suc, zero, ℕ, ℤ, ◌∷◌}
use nx_remote_cache.Storage.{Reader}
use nx_remote_cache.Storage.Disk.{Disk}
use nx_remote_cache.Storage.Disk.Find.{nodes-stat}
use nx_remote_cache.Storage.Disk.Find.Writes.{nodes-close}
use nx_remote_cache.Storage.Disk.Order.{
  IsOrdered, IsOrdered-create_temp, IsOrdered-copy_to, IsOrdered-link, IsOrdered-remove,
}
use nx_remote_cache.Storage.Local
use nx_remote_cache.Storage.Local.Cache.{nodes-exists, nodes-get, nodes-list, disk-delete}
use nx_remote_cache.Storage.Local.Steps.{
  PutState, Upload, System, put_step, returned, removing, linking, checking, creating, copying,
  closing, advance, run,
}
use nx_remote_cache.Storage.Local.Steps.Alone.{put_steps, put_steps-put}

IsOrdered-put_step :
    (u : Upload) (p : PutState) (d : Disk) → IsOrdered d.nodes → IsOrdered (put_step u p d).1.nodes
unfolding put_step
IsOrdered-put_step u checking d o = rw (nodes-stat u.hash d) o
IsOrdered-put_step u creating d o = IsOrdered-create_temp d o _
IsOrdered-put_step u (copying tmp) d o = IsOrdered-copy_to d o tmp u.reader u.size
IsOrdered-put_step u (closing tmp copied) d o = rw (nodes-close d) o
IsOrdered-put_step u (linking tmp) d o = IsOrdered-link d o tmp u.hash
IsOrdered-put_step u (removing tmp res) d o = IsOrdered-remove d o tmp
IsOrdered-put_step u (returned res) d o = o

IsOrdered-put_steps :
    (u : Upload) (n : ℕ) (p : PutState) (d : Disk)
    → IsOrdered d.nodes
    → IsOrdered (put_steps u n p d).1.nodes
unfolding put_steps
IsOrdered-put_steps u zero p d o = o
IsOrdered-put_steps u (suc n) p d o = IsOrdered-put_steps u n _ _ (IsOrdered-put_step u p d o)

-- Every operation of the local backend leaves the nodes of its directory in the order of their
-- names, each name once, whichever system calls fail.
pub local-IsOrdered :
    (hash : Text) (r : Reader) (size : ℤ) (cursor : Text) (limit : ℤ) (d : Disk)
    → IsOrdered d.nodes
    → IsOrdered (Local.exists hash d).1.nodes
      × IsOrdered (Local.put hash r size d).1.nodes
      × IsOrdered (Local.get hash d).1.nodes
      × IsOrdered (Local.delete hash d).1.nodes
      × IsOrdered (Local.list cursor limit d).1.nodes
local-IsOrdered hash r size cursor limit d o =
    let u : Upload = record { hash = hash; reader = r; size = size } in
    (
      rw (nodes-exists hash d) o,
      subst (λ x. IsOrdered x.1.nodes) (put_steps-put u d) (IsOrdered-put_steps u 6 checking d o),
      rw (nodes-get hash d) o,
      rw (disk-delete hash d) (IsOrdered-remove d o hash),
      rw (nodes-list cursor limit d) o,
    )

-- Uploads whose system calls interleave in any order leave the nodes of the directory in the order
-- of their names, each name once.
pub run-IsOrdered :
    (uploads : ℕ → Upload) (schedule : List ℕ) (s : System)
    → IsOrdered s.disk.nodes
    → IsOrdered (run uploads schedule s).disk.nodes
unfolding run
run-IsOrdered uploads [] s o = o
run-IsOrdered uploads (i ∷ schedule) s o =
    run-IsOrdered uploads schedule (advance uploads i s)
      (IsOrdered-put_step (uploads i) (s.states i) s.disk o)
