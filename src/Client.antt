-- ===== src/Client.antt =====
-- ice-qjournal-protocol/Client.cpp: the console client, which asks a node for the state of the
-- journal `abc`. What Ice does, the proxy and its calls, is a parameter.
pub mod Commands
pub mod Report
use jn_server_cc.Base.{
  ℕ, ◌==◌, List, [], ◌∷◌, ◌++◌, Option, none, some, Bytes, codes, is_empty, if◌then◌else◌, Bool,
  true, false, ◌⊎◌, inl, inr, Outcome, Action, done, error, undefined, pure, stop, modify, ◌>>=◌,
  ◌>>◌,
}
use jn_server_cc.Text.{print_ℕ, is_space}
use jn_server_cc.Rpc.{JournalState}

-- The server behind the proxy, and what the client has written.
pub record Session (S : Type 0) : Type 0 where
  pub server : S
  pub out : Bytes
  pub err : Bytes

-- The proxy: whether `checkedCast` gives one, or `none` where it throws, and a call of
-- `getJournalState`, which gives the text of an exception or the response.
pub record Ice (S : Type 0) : Type 0 where
  pub app_name : Bytes
  pub checked_cast : Option Bool
  pub call_state : Bytes → S → (Bytes ⊎ JournalState) × S

abbrev pub usage : Bytes
usage = codes "usage:\nf: is formatted\ns: get jorunal state\n?: help\n"

-- What is printed of a response.
abbrev pub report : JournalState → Bytes
report st =
    codes "lastpromisedepoch : "
    ++ (print_ℕ st.last_promised_epoch
        ++ (codes "\nfromurl : "
            ++ (st.from_url ++ (codes "\nhttpport : " ++ (print_ℕ st.http_port ++ codes "\n")))))

module _ {S : Type 0} where
  unfoldable pub print : Bytes → Action (Session S) (Unit {0})
  print bytes = modify (λ s. record s { out = s.out ++ bytes })

  unfoldable pub complain : Bytes → Action (Session S) (Unit {0})
  complain bytes = modify (λ s. record s { err = s.err ++ bytes })

  -- `menu`
  unfoldable pub menu : Action (Session S) (Unit {0})
  unfolding print
  menu = print usage

  unfoldable pub prompt : Action (Session S) (Unit {0})
  unfolding print
  prompt = print (codes "==> ")

  unfoldable pub print_answer : Bytes ⊎ JournalState → Action (Session S) (Unit {0})
  unfolding print complain
  print_answer (inl ex) = complain (ex ++ codes "\n")
  print_answer (inr st) = print (report st)

module _ {S : Type 0} (ice : Ice S) where
  unfoldable pub ask : Action (Session S) (Unit {0})
  unfolding print_answer
  ask s =
      let (r, server) = ice.call_state (codes "abc") s.server in
      print_answer r (record s { server = server })

  -- The body of the `try`, behind the read of a command. The call of `isFormatted` is commented out.
  unfoldable pub perform : ℕ → Action (Session S) (Unit {0})
  unfolding ask print menu
  perform c =
      if c == b'f'
      then pure tt
      else if c == b's'
      then ask
      else if c == b'?'
      then menu
      else (do print (codes "unknown command `" ++ (c ∷ codes "'\n")); menu)

  -- The rest of the loop from the read of a command on, over what is still to be read: white space is
  -- passed over, and a read at the end of the input leaves the command as it was, which is undefined
  -- before the first read, and ends the loop behind the command.
  unfoldable pub loop : Bytes → Option ℕ → Action (Session S) (Unit {0})
  unfolding perform prompt
  loop [] none = stop undefined
  loop [] (some c) = perform c
  loop (b ∷ bs) last = elim (is_space b) [
    | true ↦ loop bs last
    | false ↦
        perform b >>= λ _. elim (b == b'x') [ true ↦ pure tt | false ↦ prompt >> loop bs (some b) ]
  ]

  unfoldable pub talk : Bytes → Bytes → Option Bool → Action (Session S) ℕ
  unfolding loop complain menu prompt
  talk name input none = stop error
  talk name input (some false) = do complain (name ++ codes ": invalid proxy\n"); pure 1
  talk name input (some true) = do menu; prompt; loop input none; pure 0

  -- `HelloClient::run`, with the arguments behind the name of the program and the console's input.
  unfoldable pub run : Bytes → List Bytes → Bytes → Action (Session S) ℕ
  unfolding talk
  run name args input =
      if is_empty args
      then talk name input ice.checked_cast
      else (do complain (ice.app_name ++ codes ": too many arguments\n"); pure 1)
