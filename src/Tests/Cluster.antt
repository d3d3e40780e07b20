-- ===== src/Tests/Cluster.antt =====
-- Three nodes, two of which a writer has asked for an epoch.
use jn_server_cc.Base.{◌≡◌, refl, true, List, [], ◌∷◌, inl, arith}
use jn_server_cc.Host.Memory.{memory}
use jn_server_cc.Rpc.Translator.{new_epoch, prepare_recovery}
use jn_server_cc.Server.{request}
use jn_server_cc.Cluster.{
  Sent, Member, has_given, accepts_older, count, Majority, happens, answered, asks_epoch,
}
use jn_server_cc.Server.Journals.{SparesAll}
use jn_server_cc.Cluster.Promised.{SparesSent}
use jn_server_cc.Cluster.Writers.{AllSpare, one_writer_of_epoch}
use jn_server_cc.Cluster.Fenced.{older_epochs_fenced}
use jn_server_cc.Tests.Node.{cluster, empty_node, fake_namespace, epoch_given, writer}

abbrev new_writer : Sent
new_writer = record { writer = 7; event = request (new_epoch cluster fake_namespace 4) }

-- An old writer that goes on with epoch 3.
abbrev old_writer : Sent
old_writer = record {
  writer = 6;
  event = request (prepare_recovery (record writer { epoch = 3 }) 1);
}

abbrev asked : Member
asked = record { node = empty_node; seen = new_writer ∷ []; coming = old_writer ∷ [] }

-- A writer that has reached one node only, with the same epoch.
abbrev late_writer : Sent
late_writer = record new_writer { writer = 8 }

abbrev unreached : Member
unreached = record { node = empty_node; seen = late_writer ∷ []; coming = old_writer ∷ [] }

abbrev members : List Member
members = asked ∷ asked ∷ unreached ∷ []

given : has_given 7 cluster 4 asked ≡ true
unfolding has_given happens answered asks_epoch
given = rw epoch_given refl

majority : Majority (has_given 7 cluster 4) members
unfolding count
majority = rw given (omega arith)

spared : (m : Sent) → SparesAll cluster (m.event ∷ []) → SparesSent cluster (m ∷ [])
spared m h = (h, tt)

spare : AllSpare cluster members
spare =
    let s = spared new_writer (inl refl, tt) in
    let s' = spared late_writer (inl refl, tt) in
    let o = spared old_writer (inl refl, tt) in (s, o, (s, o, (s', o, tt)))

one_writer_of_epoch_example : ¬ Majority (has_given 8 cluster 4) members
one_writer_of_epoch_example = one_writer_of_epoch 7 8 cluster 4 members (omega arith) spare majority

older_epochs_fenced_example : ¬ Majority (accepts_older cluster 4) members
older_epochs_fenced_example = older_epochs_fenced 7 cluster 4 members spare majority
