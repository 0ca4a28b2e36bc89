-- ===== src/Storage/Local/Steps/Invariant.antt =====
-- Uploads whose system calls interleave: what holds between any two calls.
use mathlib.Core.Path.{subst}
use nx_remote_cache.Base.{
  ==_iff, Bool-cases, List, Option-cases, Text, [], ap, arith, false, inl, inr, none, ok, refl,
  some, sym, true, ℕ, ◌==◌, ◌∙◌, ◌∷◌, ◌≡◌, ◌≢◌,
}
use nx_remote_cache.Storage.{valid_hash}
use nx_remote_cache.Storage.Disk.{Node, Disk, find_node}
use nx_remote_cache.Storage.Local.Steps.{
  PutState, Upload, System, put_step, returned, advance, run, start,
}
use nx_remote_cache.Storage.Local.Steps.Frame.{
  temp_of, is_won, IsKept, put_step-IsKept, temp_of-put_step, is_won-put_step,
}
use nx_remote_cache.Storage.Local.Steps.Knowledge.{IsStored, Knows, Knows-put_step, Knows-kept}
use nx_remote_cache.Storage.Local.Steps.Files.{won-IsStored, temp_of-IsTemp, IsTemp-ne}

module _ (uploads : ℕ → Upload) (valid : (i : ℕ) → valid_hash (uploads i).hash ≡ true)
    (d₀ : Disk) where
  -- Every upload knows what its last system calls have told it; no two have one temporary file, and
  -- no two have linked one hash; what was stored before is there.
  pub record IsOrderly (s : System) : Type 0 where
    pub knows : (i : ℕ) → Knows (uploads i) (s.states i) s.disk.nodes
    pub apart :
        (i j : ℕ) (tmp : Text)
        → (i == j) ≡ false
        → temp_of (s.states i) ≡ some tmp
        → temp_of (s.states j) ≢ some tmp
    pub one_winner :
        (i j : ℕ)
        → (i == j) ≡ false
        → (uploads i).hash ≡ (uploads j).hash
        → is_won (s.states i) ≡ true
        → is_won (s.states j) ≡ false
    pub free : (i : ℕ) → is_won (s.states i) ≡ true → find_node (uploads i).hash d₀.nodes ≡ none
    pub kept :
        (h : Text) (n : Node)
        → valid_hash h ≡ true
        → find_node h d₀.nodes ≡ some n
        → find_node h s.disk.nodes ≡ some n

  IsOrderly-start : IsOrderly (start d₀)
  IsOrderly-start = record {
    knows = λ i. tt;
    apart = λ i j tmp ne e. absurd (ground arith);
    one_winner = λ i j ne same e. refl;
    free = λ i e. absurd (ground arith);
    kept = λ h n v e. e;
  }

  module _ (i : ℕ) (s : System) (inv : IsOrderly s) where
    abbrev next : PutState × Disk
    next = put_step (uploads i) (s.states i) s.disk

    states-same : (j : ℕ) → (i == j) ≡ true → (advance uploads i s).states j ≡ next.0
    states-same j e = rw e refl

    states-other : (j : ℕ) → (i == j) ≡ false → (advance uploads i s).states j ≡ s.states j
    states-other j e = rw e refl

    ne_hash : (h : Text) → valid_hash h ≡ true → temp_of (s.states i) ≢ some h
    ne_hash h v e =
        IsTemp-ne (uploads i) h h s.disk.nodes
          (temp_of-IsTemp (uploads i) (s.states i) s.disk.nodes h e (inv.knows i)) v refl

    IsKept-next : IsKept (temp_of (s.states i)) s.disk.nodes next.1.nodes
    IsKept-next = put_step-IsKept (uploads i) (s.states i) s.disk

    Knows-next : (j : ℕ) → Knows (uploads j) ((advance uploads i s).states j) next.1.nodes
    Knows-next j = elim (Bool-cases (i == j)) [
      | inl e ↦
          let own = Knows-put_step (uploads i) (s.states i) s.disk (valid i) (inv.knows i) in
          rw (states-same j e)
            (subst (λ k. Knows (uploads k) next.0 next.1.nodes) ((==_iff i j).0 e) own)
      | inr e ↦ rw (states-other j e) (
          Knows-kept (uploads j) (s.states j) (temp_of (s.states i)) s.disk.nodes next.1.nodes
            IsKept-next (λ tmp t q. inv.apart i j tmp e q t) (ne_hash (uploads j).hash (valid j))
            (inv.knows j))
    ]

    -- A new temporary file is no other upload's.
    apart-next :
        (j : ℕ) (tmp : Text)
        → (i == j) ≡ false
        → temp_of next.0 ≡ some tmp
        → temp_of (s.states j) ≢ some tmp
    apart-next j tmp ne e q = elim (temp_of-put_step (uploads i) (s.states i) s.disk tmp e) [
      | inl old ↦ inv.apart i j tmp ne old q
      | inr free ↦
          let (_, n, there) =
            temp_of-IsTemp (uploads j) (s.states j) s.disk.nodes tmp q (inv.knows j) in
          cc (free, there)
    ]

    -- A new winner is the first one.
    won-next :
        (j : ℕ)
        → (i == j) ≡ false
        → (uploads i).hash ≡ (uploads j).hash
        → is_won next.0 ≡ true
        → is_won (s.states j) ≡ false
    won-next j ne same e = elim (Bool-cases (is_won (s.states j))) [
      | inr lost ↦ lost
      | inl won ↦ elim (is_won-put_step (uploads i) (s.states i) s.disk e) [
        | inl old ↦ inv.one_winner i j ne same old
        | inr free ↦
            let (n, there, _, _) =
              won-IsStored (uploads j) (s.states j) s.disk.nodes won (inv.knows j) in
            cc (ap (λ h. find_node h s.disk.nodes) same, free, there)
      ]
    ]

    apart-advance :
        (a b : ℕ) (tmp : Text)
        → (a == b) ≡ false
        → temp_of ((advance uploads i s).states a) ≡ some tmp
        → temp_of ((advance uploads i s).states b) ≢ some tmp
    apart-advance a b tmp ne ea eb = elim (Bool-cases (i == a)) [
      | inl at_a ↦
          let not_b : (i == b) ≡ false = ground arith in
          apart-next b tmp not_b (ap temp_of (sym (states-same a at_a)) ∙ ea)
            (ap temp_of (sym (states-other b not_b)) ∙ eb)
      | inr not_a ↦
          let old = ap temp_of (sym (states-other a not_a)) ∙ ea in
          elim (Bool-cases (i == b)) [
            | inl at_b ↦ apart-next a tmp not_a (ap temp_of (sym (states-same b at_b)) ∙ eb) old
            | inr not_b ↦ inv.apart a b tmp ne old (ap temp_of (sym (states-other b not_b)) ∙ eb)
          ]
    ]

    same_index : (j : ℕ) → (i == j) ≡ true → (uploads i).hash ≡ (uploads j).hash
    same_index j e = ap (λ k. (uploads k).hash) ((==_iff i j).0 e)

    one_winner-advance :
        (a b : ℕ)
        → (a == b) ≡ false
        → (uploads a).hash ≡ (uploads b).hash
        → is_won ((advance uploads i s).states a) ≡ true
        → is_won ((advance uploads i s).states b) ≡ false
    one_winner-advance a b ne same ea = elim (Bool-cases (i == a)) [
      | inl at_a ↦
          let not_b : (i == b) ≡ false = ground arith in
          ap is_won (states-other b not_b)
          ∙ won-next b not_b (same_index a at_a ∙ same) (ap is_won (sym (states-same a at_a)) ∙ ea)
      | inr not_a ↦
          let old = ap is_won (sym (states-other a not_a)) ∙ ea in
          elim (Bool-cases (i == b)) [
            | inr not_b ↦ ap is_won (states-other b not_b) ∙ inv.one_winner a b ne same old
            | inl at_b ↦ ap is_won (states-same b at_b) ∙ elim (Bool-cases (is_won next.0)) [
              | inr lost ↦ lost
              | inl won ↦
                  let bad = won-next a not_a (same_index b at_b ∙ sym same) won in cc (bad, old)
            ]
          ]
    ]

    -- What was free when the link was made was free at the start.
    free-advance :
        (a : ℕ)
        → is_won ((advance uploads i s).states a) ≡ true
        → find_node (uploads a).hash d₀.nodes ≡ none
    free-advance a e = elim (Bool-cases (i == a)) [
      | inr not_a ↦ inv.free a (ap is_won (sym (states-other a not_a)) ∙ e)
      | inl at_a ↦
          let won = ap is_won (sym (states-same a at_a)) ∙ e in
          let at_i : find_node (uploads i).hash d₀.nodes ≡ none =
            elim (is_won-put_step (uploads i) (s.states i) s.disk won) [
              | inl old ↦ inv.free i old
              | inr free ↦ elim (Option-cases (find_node (uploads i).hash d₀.nodes)) [
                | inl gone ↦ gone
                | inr (n, there) ↦
                    let still = inv.kept (uploads i).hash n (valid i) there in cc (free, still)
              ]
            ] in
          ap (λ h. find_node h d₀.nodes) (sym (same_index a at_a)) ∙ at_i
    ]

    IsOrderly-advance : IsOrderly (advance uploads i s)
    IsOrderly-advance = record {
      knows = Knows-next;
      apart = apart-advance;
      one_winner = one_winner-advance;
      free = free-advance;
      kept = λ h n v e. IsKept-next h n (inv.kept h n v e) (ne_hash h v);
    }

  IsOrderly-run :
      (schedule : List ℕ) (s : System) → IsOrderly s → IsOrderly (run uploads schedule s)
  unfolding run
  IsOrderly-run [] s inv = inv
  IsOrderly-run (i ∷ schedule) s inv =
      IsOrderly-run schedule (advance uploads i s) (IsOrderly-advance i s inv)

  module _ (schedule : List ℕ) where
    abbrev end : System
    end = run uploads schedule (start d₀)

    inv : IsOrderly end
    inv = IsOrderly-run schedule (start d₀) IsOrderly-start

    -- When uploads to valid hashes interleave their system calls in any order, and whichever calls
    -- fail, what was stored under a valid hash stays as it is.
    pub run-keeps :
        (h : Text) (n : Node)
        → valid_hash h ≡ true
        → find_node h d₀.nodes ≡ some n
        → find_node h end.disk.nodes ≡ some n
    run-keeps h n v e = inv.kept h n v e

    -- When uploads to valid hashes interleave their system calls in any order, and whichever calls
    -- fail, an upload that has returned without an error has a hash that was free at the start, and
    -- under it its whole body is stored, with as many bytes as it announced.
    pub run-stores :
        (i : ℕ)
        → end.states i ≡ returned (ok tt)
        → (find_node (uploads i).hash d₀.nodes ≡ none) × IsStored (uploads i) end.disk.nodes
    run-stores i e = (
      inv.free i (ap is_won e),
      won-IsStored (uploads i) (end.states i) end.disk.nodes (ap is_won e) (inv.knows i),
    )

    -- When uploads to valid hashes interleave their system calls in any order, and whichever calls
    -- fail, at most one of two uploads to the same hash has returned without an error.
    pub run-one_winner :
        (i j : ℕ)
        → (i == j) ≡ false
        → (uploads i).hash ≡ (uploads j).hash
        → end.states i ≡ returned (ok tt)
        → end.states j ≢ returned (ok tt)
    run-one_winner i j ne same first second =
        let lost = inv.one_winner i j ne same (ap is_won first) in cc (ap is_won second, lost)
