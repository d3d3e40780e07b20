-- ===== src/Server/Starting/Ports.antt =====
-- Where the web server of a node that has been started listens.
use mathlib.Core.Option.{some-injective}
use jn_server_cc.Base.{
  ℕ, ◌≡◌, ◌<◌, ◌^◌, ◌∙◌, ap, sym, pure, done-injective, true, ◌∷◌, ◌++◌, some, Bytes, ℤ, pos, arith,
  done, >>=-eq-done, ◌>>=◌,
}
use jn_server_cc.Text.{print_ℕ, print_long}
use jn_server_cc.Text.RoundTrip.{no_colon}
use jn_server_cc.Host.{Host}
use jn_server_cc.Files.Pairs.{host_port_pair_join}
use jn_server_cc.Node
use jn_server_cc.Node.{
  JournalNode, Properties, property_or, http_address_key, new_node, validate_and_create_journal_dir,
  make_journal_dir,
}
use jn_server_cc.Http.Polling.{HttpServer, start_httpserver}
use jn_server_cc.Rpc.Endpoint.{IceServer}
use jn_server_cc.Rpc.Endpoint.Address.{joined_nonempty}
use jn_server_cc.Server.Starting.{start_web, start_rpc, start_node, main}

module _ ⦃host : Host⦄ where
  new_node_port :
      (conf : Properties) (d : host.Disk) (h : Bytes) (p : ℕ)
      → conf http_address_key ≡ h ++ b':' ∷ print_ℕ p
      → no_colon h ≡ true
      → p < 2 ^ 31
      → (new_node conf d).http_port ≡ p
  unfolding new_node property_or print_long
  new_node_port conf d h p e plain small =
      rw (property_or, e, joined_nonempty h (print_ℕ p), host_port_pair_join h (pos p) plain small)
        (omega (arith, small))

  start_keeps : (n : JournalNode) → (Node.start n).1.http_port ≡ n.http_port
  unfolding Node.start validate_and_create_journal_dir make_journal_dir ◌>>=◌
  start_keeps n = ground arith

  web_port :
      (n : JournalNode) (w : HttpServer)
      → (start_web n).0 ≡ done w
      → w.listening_port ≡ print_ℕ n.http_port
  unfolding start_web start_httpserver ◌>>=◌
  web_port n w h = sym (ap (λ x. x.listening_port) (done-injective h))

  -- The node that has been started reports the server that it started.
  last_server :
      (w : HttpServer) (st : ℤ) (n : JournalNode) (x : HttpServer × ℤ)
      → (pure (w, st) n).0 ≡ done x
      → w ≡ x.0
  unfolding ◌>>=◌
  last_server w st n x h = ap (λ y. y.0) (done-injective h)

  -- For a configured HTTP address of a host without a colon, a colon and a printed port that is
  -- an int, a node whose main gets as far as starting its servers has its web server listen on
  -- that port, as it is printed in the address.
  pub main_listening_port :
      (ice : IceServer → host.Disk → ℤ × host.Disk) (conf : Properties) (h : Bytes) (p : ℕ)
      (d : host.Disk) (web : HttpServer) (status : ℤ) (n : JournalNode)
      → conf http_address_key ≡ h ++ b':' ∷ print_ℕ p
      → no_colon h ≡ true
      → p < 2 ^ 31
      → main ice 2 conf d ≡ some (done (web, status), n)
      → web.listening_port ≡ print_ℕ p
  unfolding main start_node
  main_listening_port ice conf h p d web status n e plain small r =
      let n0 = new_node conf d in
      let h0 = ap (λ x. x.0) (some-injective _ _ r) in
      let (a, e1, h1, q1) = >>=-eq-done Node.start _ n0 (web, status) h0 in
      let n1 = (Node.start n0).1 in
      let (w, e2, h2, q2) = >>=-eq-done start_web _ n1 (web, status) h1 in
      let (st, e3, h3, q3) = >>=-eq-done (start_rpc ice) _ (start_web n1).1 (web, status) h2 in
      let port = start_keeps n0 ∙ new_node_port conf d h p e plain small in
      ap (λ x. x.listening_port) (sym (last_server w st _ (web, status) h3))
      ∙ web_port n1 w e2
      ∙ ap print_ℕ port
