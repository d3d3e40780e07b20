-- ===== src/Cluster/Writers.antt =====
-- Majorities of nodes, and what they give to the writers.
use jn_server_cc.Base.{
  ℕ, ◌+◌, ◌≤◌, ◌≡◌, arith, ◌==◌, ◌&&◌, Bool, true, false, refl, if◌then◌else◌, List, [], ◌∷◌, inl,
  inr, ◌≢◌, Bytes, length, Bool-cases,
}
use jn_server_cc.Host.{Host}
use jn_server_cc.Node.{JournalNode}
use jn_server_cc.Server.{after}
use jn_server_cc.Cluster.{Sent, Member, asks_epoch, answered, happens, has_given, count, Majority}
use jn_server_cc.Cluster.Promised.{
  SparesSent, HasPromised, after-HasPromised, given-HasPromised, not_given_again,
}

module _ ⦃host : Host⦄ where
  -- The nodes are sent no request to format the journal.
  abbrev pub AllSpare : Bytes → List Member → Type 0
  AllSpare jid [] = Unit {0}
  AllSpare jid (m ∷ ms) = SparesSent jid m.seen × SparesSent jid m.coming × AllSpare jid ms

  abbrev pub Apart : (Member → Bool) → (Member → Bool) → Member → Type 0
  Apart p q m = p m ≡ true → q m ≡ false

  abbrev pub AllApart : (Member → Bool) → (Member → Bool) → List Member → Type 0
  AllApart p q [] = Unit {0}
  AllApart p q (m ∷ ms) = Apart p q m × AllApart p q ms

  one_each :
      (p q : Member → Bool) (m : Member)
      → Apart p q m
      → (if p m then 1 else 0) + (if q m then 1 else 0) ≤ 1
  one_each p q m h = elim (Bool-cases (p m)) [
    | inl e ↦ rw (e, h e) (omega arith)
    | inr e ↦ rw e (ground arith)
  ]

  -- Tests that no node passes both of are passed by as many nodes as there are, at most.
  count-add-le :
      (p q : Member → Bool) (ms : List Member)
      → AllApart p q ms
      → count p ms + count q ms ≤ length ms
  unfolding count
  count-add-le p q [] h = omega arith
  count-add-le p q (m ∷ ms) (h, hs) = omega (arith, one_each p q m h, count-add-le p q ms hs)

  pub two_majorities :
      (p q : Member → Bool) (ms : List Member) → AllApart p q ms → Majority p ms → Majority q ms → ⊥
  two_majorities p q ms h a b = absurd (omega (arith, count-add-le p q ms h))

  -- Once an epoch is promised it is not given.
  not_given :
      (w : ℕ) (jid : Bytes) (epoch : ℕ) (ss : List Sent) (n : JournalNode)
      → SparesSent jid ss
      → HasPromised jid epoch n
      → happens (λ s n'. s.writer == w && answered (asks_epoch jid epoch) s.event n') ss n ≡ false
  unfolding happens
  not_given w jid epoch [] n spares p = refl
  not_given w jid epoch (s ∷ ss) n (spare, spares) p = ground (
    arith,
    not_given_again jid epoch s.event n p,
    not_given w jid epoch ss (after s.event n) spares
        (after-HasPromised jid epoch s.event n spare p),
  )

  abbrev pub gets : ℕ → Bytes → ℕ → Sent → JournalNode → Bool
  gets w jid epoch s n = s.writer == w && answered (asks_epoch jid epoch) s.event n

  pub got :
      (w : ℕ) (jid : Bytes) (epoch : ℕ) (s : Sent) (n : JournalNode)
      → gets w jid epoch s n ≡ true
      → (s.writer ≡ w) × (answered (asks_epoch jid epoch) s.event n ≡ true)
  got w jid epoch s n h = (ground arith, ground arith)

  not_both :
      (w v : ℕ) (jid : Bytes) (epoch : ℕ) (s : Sent) (n : JournalNode)
      → w ≢ v
      → gets w jid epoch s n ≡ true
      → gets v jid epoch s n ≡ false
  not_both w v jid epoch s n ne h = ground arith

  -- One node gives an epoch to one writer.
  given_once :
      (w v : ℕ) (jid : Bytes) (epoch : ℕ) (ss : List Sent) (n : JournalNode)
      → w ≢ v
      → SparesSent jid ss
      → happens (gets w jid epoch) ss n ≡ true
      → happens (gets v jid epoch) ss n ≡ false
  unfolding happens
  given_once w v jid epoch [] n ne spares h = refl
  given_once w v jid epoch (s ∷ ss) n ne (spare, spares) h =
      elim (Bool-cases (gets w jid epoch s n)) [
        | inl e ↦
            let p = given-HasPromised jid epoch s.event n (got w jid epoch s n e).1 in
            rw
              (not_both w v jid epoch s n ne e, not_given v jid epoch ss (after s.event n) spares p)
              refl
        | inr e ↦ elim (Bool-cases (gets v jid epoch s n)) [
          | inl e' ↦
              let p = given-HasPromised jid epoch s.event n (got v jid epoch s n e').1 in
              absurd (cc (rw (e, not_given w jid epoch ss (after s.event n) spares p) at h))
          | inr e' ↦ rw e' (given_once w v jid epoch ss (after s.event n) ne spares (rw e at h))
        ]
      ]

  apart_givers :
      (w v : ℕ) (jid : Bytes) (epoch : ℕ) (ms : List Member)
      → w ≢ v
      → AllSpare jid ms
      → AllApart (has_given w jid epoch) (has_given v jid epoch) ms
  unfolding has_given
  apart_givers w v jid epoch [] ne spares = tt
  apart_givers w v jid epoch (m ∷ ms) ne (seen, coming, spares) = (
    λ h. given_once w v jid epoch m.seen m.node ne seen h,
    apart_givers w v jid epoch ms ne spares,
  )

  -- Whatever nodes are sent, none of it a request to format the journal: where a majority of them
  -- has answered newEpoch of a writer with an epoch, no majority of them has answered newEpoch of
  -- another writer with the same epoch.
  pub one_writer_of_epoch :
      (w v : ℕ) (jid : Bytes) (epoch : ℕ) (ms : List Member)
      → w ≢ v
      → AllSpare jid ms
      → Majority (has_given w jid epoch) ms
      → ¬ Majority (has_given v jid epoch) ms
  one_writer_of_epoch w v jid epoch ms ne spares a b =
      two_majorities (has_given w jid epoch) (has_given v jid epoch) ms
        (apart_givers w v jid epoch ms ne spares) a b
