-- ===== src/Tests/Client.antt =====
-- The client at the console, with a node that has the journal `abc`.
use jn_server_cc.Base.{◌≡◌, refl, [], ◌∷◌, ◌++◌, none, some, codes, Bytes, done, arith, inr, Stop}
use jn_server_cc.Dict.{find}
use jn_server_cc.Host.Memory.{memory}
use jn_server_cc.Node.{JournalNode}
use jn_server_cc.Rpc.Translator.{get_journal_state, handle}
use jn_server_cc.Client.{usage, report, loop, run}
use jn_server_cc.Client.Commands.{perform_all, loop-perform_all}
use jn_server_cc.Client.Report.{proxy, reported, run-reported}
use jn_server_cc.Tests.Node.{node}
use jn_server_cc.Tests.Setup.{writing}

abbrev node_abc : JournalNode
node_abc = record node { journals_by_id = (codes "abc", writing) ∷ [] }

abbrev exception : Stop → Bytes
exception e = codes "unknown exception"

abbrev name : Bytes
name = codes "client"

found : find (codes "abc") node_abc.journals_by_id ≡ some writing
unfolding find
found = refl

run-reported_example :
    run
      (proxy name exception)
      name
      []
      (codes "s\nx\n")
      (record { server = node_abc; out = []; err = [] })
    ≡ (
      done 0,
      record {
        server = (handle (get_journal_state (codes "abc")) node_abc).1;
        out =
            usage
            ++ codes "==> "
            ++ report (reported writing node_abc)
            ++ codes "==> "
            ++ codes "unknown command `x'\n"
            ++ usage;
        err = [];
      },
    )
run-reported_example =
    run-reported name exception (codes "s\nx\n") [] node_abc writing found refl refl

-- The last command is performed twice where no `x` is typed.
loop-perform_all_example :
    loop (proxy name exception) (codes "?\n s\n") none
    ≡ perform_all (proxy name exception) (b'?' ∷ b's' ∷ b's' ∷ [])
loop-perform_all_example =
    loop-perform_all (proxy name exception) (codes "?\n s\n") (b'?' ∷ []) b's' [] (omega arith, tt)
      refl (inr (omega arith, refl))
