-- ===== src/Rpc/Endpoint/Address.antt =====
-- The address in the configuration of the node, and the lines that Ice reads.
use jn_server_cc.Base.{
  ◌≡◌, refl, true, false, [], ◌∷◌, ◌++◌, some, Bytes, codes, ℤ, pos, is_empty, arith, done,
}
use jn_server_cc.Text.{print_long}
use jn_server_cc.Text.RoundTrip.{no_colon, IsInt}
use jn_server_cc.Host.{Host}
use jn_server_cc.Host.Laws.{FilesKeep}
use jn_server_cc.Stream.{open_stream, is_open, put, close}
use jn_server_cc.Files.Pairs.{host_port_pair_join}
use jn_server_cc.Node.{Properties, property_or, rpc_address_key}
use jn_server_cc.Rpc.Endpoint.{
  IceServer, new_server, server_config, config_text, create_config_file,
}

-- The lines that Ice reads.
abbrev pub endpoint_lines : Bytes → ℤ → Bytes
endpoint_lines h port =
    codes "QJournalProtocolPB.Endpoints=tcp -h "
    ++ (h
        ++ (codes " -p "
            ++ (print_long port
                ++ (10 ∷ codes "Ice.ThreadPool.Server.Size=")
                ++ (print_long (pos 1) ++ 10 ∷ []))))

pub joined_nonempty : (h s : Bytes) → is_empty (h ++ b':' ∷ s) ≡ false
joined_nonempty [] s = refl
joined_nonempty (c ∷ h) s = refl

config_text_lines :
    (conf : Properties) (h : Bytes) (port : ℤ)
    → conf rpc_address_key ≡ h ++ b':' ∷ print_long port
    → no_colon h ≡ true
    → IsInt port
    → config_text (new_server conf) ≡ endpoint_lines h port
unfolding config_text new_server property_or
config_text_lines conf h port e plain int =
    rw
      (
        config_text,
        new_server,
        property_or,
        e,
        joined_nonempty h (print_long port),
        host_port_pair_join h port plain int,
      )
      refl

module _ ⦃host : Host⦄ where
  created :
      (s : IceServer) (text : Bytes) (d d1 d2 : host.Disk) (o : host.Handle)
      → config_text s ≡ text
      → is_empty text ≡ false
      → host.open_out server_config d ≡ (some o, d1)
      → host.write_at o 0 text d1 ≡ (true, d2)
      → create_config_file s d ≡ (done tt, host.close_out o d2)
  unfolding create_config_file open_stream put close is_open
  created s text d d1 d2 o e there opens writes = ground arith

  -- For a configured RPC address of a host without a colon, a colon and a printed port, which is
  -- an int, the configuration file of the Ice server has that host and port in the endpoint of
  -- the protocol: where the file can be opened, the write succeeds and files keep what is
  -- written.
  create_config_file_address :
      (keep : FilesKeep) (conf : Properties) (h : Bytes) (port : ℤ) (d d1 d2 : host.Disk)
      (o : host.Handle)
      → conf rpc_address_key ≡ h ++ b':' ∷ print_long port
      → no_colon h ≡ true
      → IsInt port
      → host.open_out server_config d ≡ (some o, d1)
      → host.write_at o 0 (endpoint_lines h port) d1 ≡ (true, d2)
      → ((create_config_file (new_server conf) d).0 ≡ done tt)
        × (host.read_file server_config (create_config_file (new_server conf) d).1
            ≡ some (endpoint_lines h port))
  create_config_file_address keep conf h port d d1 d2 o e plain int opens writes =
      let q =
        created (new_server conf) (endpoint_lines h port) d d1 d2 o
          (config_text_lines conf h port e plain int) refl opens writes in
      let (content, _) =
        keep.write_read server_config (endpoint_lines h port) d d1 d2 o opens writes in
      rw q (refl, content)
