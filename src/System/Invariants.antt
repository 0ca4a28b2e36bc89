-- ===== src/System/Invariants.antt =====
-- What holds of the database through every run of the program.
use nx_remote_cache.Base.{List, [], ℕ, ℤ}
use nx_remote_cache.Store.{Db, Fate}
use nx_remote_cache.Store.Consistency.{IsConsistent}
use nx_remote_cache.Store.Consistency.Statements.{run-IsConsistent}
use nx_remote_cache.Store.Queries.{Query}
use nx_remote_cache.Store.Queries as Queries
use nx_remote_cache.Settings.Manager.{Builders}
use nx_remote_cache.World.{World}
use nx_remote_cache.Janitor
use nx_remote_cache.Start.Run as Start
use nx_remote_cache.Start.Run.{Surroundings}
use nx_remote_cache.Start.Fresh.{migrated, migrated-IsConsistent, keep-start}
use nx_remote_cache.Admin.Routes.{Server, State}
use nx_remote_cache.System
use nx_remote_cache.System.{Event}
use nx_remote_cache.System.Closed.Routes.{keep-run}

IsConsistent-closed : (q : Query) (d : Db) → IsConsistent d → IsConsistent (Queries.run q d)
IsConsistent-closed q d k = run-IsConsistent d k q

module _ {S L : Type 0} (s : Server S L) (cfg : Janitor.Config) where
  -- Through any requests to the program, recorded reads and sweeps, tables that meet the schema go
  -- on to meet it.
  pub system_run-IsConsistent :
      (es : List Event) (st : State S L)
      → IsConsistent st.world.db
      → IsConsistent (System.run s cfg es st).world.db
  system_run-IsConsistent es st k = keep-run IsConsistent IsConsistent-closed s cfg es st k

  -- The state from which the program serves: the start on a database that has just been migrated, and
  -- no login attempt yet.
  abbrev pub started : Surroundings → Builders S → World S → ℤ → (ℕ → Fate) → (ℕ → ℤ) → State S L
  started o builders w time fate clock = record {
    limiters = [];
    world = (Start.run s.primitives o builders (record w { db = migrated time fate clock })).1;
  }

  -- From a database that has just been migrated, through the start of the program and any requests,
  -- recorded reads and sweeps after it, whatever becomes of each statement that they send, the tables
  -- meet the schema: emails, keys, token hashes and read hashes are distinct, the sequences are ahead
  -- of the keys drawn from them, no session, token or settings row names a user who is gone, and the
  -- settings row has a known backend and a lifetime that fits its column.
  pub life-IsConsistent :
      (o : Surroundings) (builders : Builders S) (w : World S) (time : ℤ) (fate : ℕ → Fate)
      (clock : ℕ → ℤ) (es : List Event)
      → IsConsistent (System.run s cfg es (started o builders w time fate clock)).world.db
  life-IsConsistent o builders w time fate clock es =
      system_run-IsConsistent es (started o builders w time fate clock) (
        keep-start IsConsistent IsConsistent-closed s.primitives o builders _
          (migrated-IsConsistent time fate clock))
