-- ===== src/Tests/Uploads.antt =====
-- Uploads at once, and the loops over the pages of a listing, on concrete inputs.
use nx_remote_cache.Base.{
  List, [], arith, bytes, contains, err, false, if◌then◌else◌, is_some, none, ok, pos, refl, some,
  text_eq, text_lt, true, ℕ, ◌+◌, ◌-ℤ◌, ◌==◌, ◌∷◌, ◌≡◌, ◌≢◌,
}
use nx_remote_cache.Storage.{valid_hash, already_exists}
use nx_remote_cache.Storage.Disk.{
  Disk, find_node, insert_node, remove_node, stat, create_temp, copy_to, close, link, remove,
  read_dir,
}
use nx_remote_cache.Storage.Disk.Order.{IsOrdered}
use nx_remote_cache.Storage.Local
use nx_remote_cache.Storage.Local.{local}
use nx_remote_cache.Storage.Local.Cache.{holds}
use nx_remote_cache.Storage.Local.Paging.{rank, local-IsPaged}
use nx_remote_cache.Storage.Local.Steps.{Upload, System, returned, put_step, run, start}
use nx_remote_cache.Storage.Local.Steps.Alone.{put_steps}
use nx_remote_cache.Storage.Local.Steps.Knowledge.{IsStored}
use nx_remote_cache.Storage.Local.Steps.Invariant.{run-stores, run-one_winner}
use nx_remote_cache.Janitor.{Config, sweep}
use nx_remote_cache.Janitor.Ending.{sweep-ends}
use nx_remote_cache.Admin.Cache.{handle_prune}
use nx_remote_cache.Admin.Cache.Ending.{handle_prune-answers}
use nx_remote_cache.Tests.{disk, world, ann}

-- Temporary names differ.
abbrev shared : Disk
shared = record disk { suffix = λ n. (48 + n) ∷ [] }

-- All upload to one hash; the first has two bytes, the others have one.
abbrev uploads : ℕ → Upload
uploads i = record {
  hash = bytes "new";
  reader = record { content = if i == 0 then 1 ∷ 2 ∷ [] else 3 ∷ []; broken = false };
  size = if i == 0 then pos 2 else pos 1;
}

abbrev in_turns : List ℕ
in_turns = 0 ∷ 1 ∷ 0 ∷ 1 ∷ 0 ∷ 1 ∷ 0 ∷ 1 ∷ 0 ∷ 1 ∷ 0 ∷ 1 ∷ []

abbrev end : System
end = run uploads in_turns (start shared)

program : Unit {0}
unfolding run put_step put_steps stat create_temp copy_to close link remove read_dir find_node
    insert_node remove_node text_eq valid_hash Local.put Local.exists Local.get Local.delete
    Local.list holds text_lt contains ◌-ℤ◌
program = tt

-- The first has won, and the other finds the artifact when it makes its link.
both : (end.states 0 ≡ returned (ok tt)) × (end.states 1 ≡ returned (err already_exists))
unfolding program
both = (refl, refl)

run-stores_example :
    (find_node (bytes "new") shared.nodes ≡ none) × IsStored (uploads 0) end.disk.nodes
unfolding program
run-stores_example = run-stores uploads (λ i. refl) shared in_turns 0 refl

run-one_winner_example : end.states 1 ≢ returned (ok tt)
unfolding program
run-one_winner_example = run-one_winner uploads (λ i. refl) shared in_turns 0 1 refl refl refl

abbrev rules : Config
rules = record { max_age = pos 50; unread_after = pos 20 }

sweep-ends_example : is_some (sweep 2 rules (pos 1030) world).0 ≡ true
unfolding program
sweep-ends_example =
    sweep-ends (λ d. IsOrdered d.nodes) rank 2 rules (pos 1030) world local-IsPaged (tt, tt)
      (omega arith)

handle_prune-answers_example : is_some (handle_prune 2 (pos 5) (some (pos 1)) ann world).0 ≡ true
unfolding program
handle_prune-answers_example =
    handle_prune-answers (λ d. IsOrdered d.nodes) rank 2 (pos 5) (some (pos 1)) ann world
      local-IsPaged (tt, tt) (omega arith)
