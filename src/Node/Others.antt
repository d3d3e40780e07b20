-- ===== src/Node/Others.antt =====
-- What a call of one journal does to the map of the node: the other journals stay as they are, the
-- entries stay in order, and the journal itself moves as the call moves it.
use jn_server_cc.Base.{
  ◌≡◌, ◌≢◌, refl, sym, ◌∙◌, inl, inr, Option, none, some, Bytes, bytes_eq, eq_of_bytes_eq,
  ne_of_bytes_eq, arith, done, Option-cases, Bool-cases, ◌>>=◌,
}
use mathlib.Core.Path.{subst}
use jn_server_cc.Base.Moves.{
  Moves, IsPreorder, Moves->>=, Moves-pure, Moves-gets, Moves-stop_if, moves_rules,
}
use jn_server_cc.Dict.{find}
use jn_server_cc.Dict.Laws.{IsSorted, find-insert_self, find-insert_ne, insert-IsSorted}
use jn_server_cc.Host.{Host}
use jn_server_cc.Journal.State.{Journal, Call}
use jn_server_cc.Journal.Epochs.Promise.{IsLoaded, Later, Later-trans, Forward}
use jn_server_cc.Journal.Opening.{new_journal}
use jn_server_cc.Node.{
  JournalNode, NodeCall, create_missing, get_log_dir, create_journal, get_or_create_journal,
  through_pointer, on_journal,
}

module _ ⦃host : Host⦄ where
  -- All journals but the one of an id are as before.
  pub record OthersSame (jid : Bytes) (n m : JournalNode) : Type 0 where
    pub same : (k : Bytes) → k ≢ jid → find k m.journals_by_id ≡ find k n.journals_by_id

  pub OthersSame-preorder : (jid : Bytes) → IsPreorder (OthersSame jid)
  OthersSame-preorder jid = record {
    same = λ s. record { same = λ k h. refl };
    chain = λ s t u a b. record { same = λ k h. b.same k h ∙ a.same k h };
  }

  -- The entries of the map stay in order.
  pub record StaysSorted (n m : JournalNode) : Type 0 where
    pub sorted : IsSorted n.journals_by_id → IsSorted m.journals_by_id

  pub StaysSorted-preorder : IsPreorder StaysSorted
  StaysSorted-preorder = record {
    same = λ s. record { sorted = λ h. h };
    chain = λ s t u a b. record { sorted = λ h. b.sorted (a.sorted h) };
  }

  create_journal-OthersSame : (jid dir : Bytes) → Moves (OthersSame jid) (create_journal jid dir)
  unfolding create_journal
  create_journal-OthersSame jid dir = record {
    at = λ n. record {
      same =
          λ k h. ground (arith, find-insert_ne jid k (new_journal dir n.disk).1 n.journals_by_id h);
    };
  }

  pub through_pointer-OthersSame :
      {A : Type 0} (jid : Bytes) (m : Call A) → Moves (OthersSame jid) (through_pointer jid m)
  unfolding through_pointer
  through_pointer-OthersSame jid m = record {
    at = λ n. record {
      same = λ k h. elim (Option-cases (find jid n.journals_by_id)) [
        | inl e ↦ rw (through_pointer, e) refl
        | inr (j, e) ↦
            rw (through_pointer, e)
              (find-insert_ne jid k (m (record j { disk = n.disk })).1 n.journals_by_id h)
      ];
    };
  }

  create_journal-StaysSorted : (jid dir : Bytes) → Moves StaysSorted (create_journal jid dir)
  unfolding create_journal
  create_journal-StaysSorted jid dir = record {
    at = λ n. record {
      sorted =
          λ s. ground (arith, insert-IsSorted jid (new_journal dir n.disk).1 n.journals_by_id s);
    };
  }

  pub through_pointer-StaysSorted :
      {A : Type 0} (jid : Bytes) (m : Call A) → Moves StaysSorted (through_pointer jid m)
  unfolding through_pointer
  through_pointer-StaysSorted jid m = record {
    at = λ n. record {
      sorted = λ s. elim (Option-cases (find jid n.journals_by_id)) [
        | inl e ↦ rw (through_pointer, e) s
        | inr (j, e) ↦
            rw (through_pointer, e)
              (insert-IsSorted jid (m (record j { disk = n.disk })).1 n.journals_by_id s)
      ];
    };
  }

  -- How the journal of an id moves: one whose promise is loaded only forward.
  pub record MovesForward (k : Bytes) (n m : JournalNode) : Type 0 where
    pub moved :
        (j : Journal)
        → find k n.journals_by_id ≡ some j
        → IsLoaded j
        → (j' : Journal) × (find k m.journals_by_id ≡ some j') × IsLoaded j' × Later j j'

  pub MovesForward-preorder : (k : Bytes) → IsPreorder (MovesForward k)
  MovesForward-preorder k = record {
    same = λ s. record { moved = λ j e l. (j, e, l, inr (refl, omega arith)) };
    chain = λ s t u a b. record {
      moved = λ j e l.
          let (j1, e1, l1, m1) = a.moved j e l in
          let (j2, e2, l2, m2) = b.moved j1 e1 l1 in (j2, e2, l2, Later-trans j j1 j2 m1 m2);
    };
  }

  -- No other journal moves at all.
  pub MovesForward-others :
      (k jid : Bytes) (n m : JournalNode) → k ≢ jid → OthersSame jid n m → MovesForward k n m
  MovesForward-others k jid n m h o = record {
    moved = λ j e l. (j, o.same k h ∙ e, l, inr (refl, omega arith));
  }

  -- A call that leaves all journals but one, and moves that one forward, moves each forward.
  pub MovesForward-any :
      {A : Type 0} (k jid : Bytes) (m : NodeCall A)
      → Moves (OthersSame jid) m
      → Moves (MovesForward jid) m
      → Moves (MovesForward k) m
  MovesForward-any k jid m o f = elim (Bool-cases (bytes_eq k jid)) [
    | inl e ↦ subst (λ q. Moves (MovesForward q) m) (sym (eq_of_bytes_eq k jid e)) f
    | inr e ↦ record {
      at = λ n. MovesForward-others k jid n (m n).1 (ne_of_bytes_eq k jid e) (o.at n);
    }
  ]

  pub through_pointer-MovesForward :
      {A : Type 0} (jid : Bytes) (m : Call A)
      → Moves Forward m
      → Moves (MovesForward jid) (through_pointer jid m)
  unfolding through_pointer
  through_pointer-MovesForward jid m h = record {
    at = λ n. record {
      moved = λ j e l.
          let j0 = record j { disk = n.disk } in
          let (l', f) = (h.at j0).from_loaded l in
          rw (through_pointer, e) ((m j0).1, find-insert_self jid (m j0).1 n.journals_by_id, l', f);
    };
  }

  -- A journal that is there is not made again.
  pub get_or_create_found :
      (jid : Bytes) (n : JournalNode) (j : Journal)
      → find jid n.journals_by_id ≡ some j
      → get_or_create_journal jid n ≡ (done tt, n)
  unfolding get_or_create_journal ◌>>=◌
  get_or_create_found jid n j e = ground (arith, e)

  pub get_or_create-MovesForward :
      (jid : Bytes) → Moves (MovesForward jid) (get_or_create_journal jid)
  get_or_create-MovesForward jid = record {
    at = λ n. record {
      moved = λ j e l. rw (get_or_create_found jid n j e) (j, e, l, inr (refl, omega arith));
    };
  }

  pub on_journal-MovesForward :
      {A : Type 0} (jid : Bytes) (m : Call A)
      → Moves Forward m
      → Moves (MovesForward jid) (on_journal jid m)
  unfolding on_journal
  on_journal-MovesForward jid m h =
      Moves->>= (MovesForward-preorder jid) _ _ (get_or_create-MovesForward jid)
        (λ _. through_pointer-MovesForward jid m h)

  create_missing-OthersSame :
      (jid : Bytes) (found : Option Journal) → Moves (OthersSame jid) (create_missing jid found)
  unfolding get_log_dir
  create_missing-OthersSame jid (some j) = Moves-pure (OthersSame-preorder jid) tt
  create_missing-OthersSame jid none =
      search (moves_rules, OthersSame-preorder, create_journal-OthersSame)

  pub get_or_create-OthersSame : (jid : Bytes) → Moves (OthersSame jid) (get_or_create_journal jid)
  unfolding get_or_create_journal
  get_or_create-OthersSame jid =
      search (moves_rules, OthersSame-preorder, create_missing-OthersSame)

  create_missing-StaysSorted :
      (jid : Bytes) (found : Option Journal) → Moves StaysSorted (create_missing jid found)
  unfolding get_log_dir
  create_missing-StaysSorted jid (some j) = Moves-pure StaysSorted-preorder tt
  create_missing-StaysSorted jid none =
      search (moves_rules, StaysSorted-preorder, create_journal-StaysSorted)

  pub get_or_create-StaysSorted : (jid : Bytes) → Moves StaysSorted (get_or_create_journal jid)
  unfolding get_or_create_journal
  get_or_create-StaysSorted jid =
      search (moves_rules, StaysSorted-preorder, create_missing-StaysSorted)

  pub on_journal-OthersSame :
      {A : Type 0} (jid : Bytes) (m : Call A) → Moves (OthersSame jid) (on_journal jid m)
  unfolding on_journal
  on_journal-OthersSame jid m =
      search
        (moves_rules, OthersSame-preorder, get_or_create-OthersSame, through_pointer-OthersSame)

  pub on_journal-StaysSorted :
      {A : Type 0} (jid : Bytes) (m : Call A) → Moves StaysSorted (on_journal jid m)
  unfolding on_journal
  on_journal-StaysSorted jid m =
      search
        (moves_rules, StaysSorted-preorder, get_or_create-StaysSorted, through_pointer-StaysSorted)

pub ruleset others_rules = (
  moves_rules, OthersSame-preorder, get_or_create-OthersSame, through_pointer-OthersSame,
  on_journal-OthersSame,
)

pub ruleset sorted_rules = (
  moves_rules, StaysSorted-preorder, get_or_create-StaysSorted, through_pointer-StaysSorted,
  on_journal-StaysSorted,
)

pub ruleset forward_rules = (moves_rules, MovesForward-preorder, on_journal-MovesForward)
