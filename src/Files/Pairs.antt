-- ===== src/Files/Pairs.antt =====
-- A host and a port joined by a colon, as HostPortPair (util/JNServiceMiscUtils.cpp) reads them.
use jn_server_cc.Base.{◌≡◌, refl, true, [], ◌∷◌, ◌++◌, some, Bytes, ℤ, arith}
use jn_server_cc.Text.{print_long}
use jn_server_cc.Text.RoundTrip.{no_colon, IsInt, atoi-print_long}
use jn_server_cc.Files.{split_colon, host_port_pair}

split_colon_join : (a s : Bytes) → no_colon a ≡ true → split_colon (a ++ b':' ∷ s) ≡ some (a, s)
split_colon_join [] s h = refl
split_colon_join (c ∷ a) s h = ground (arith, split_colon_join a s)

pub host_port_pair_join :
    (h : Bytes) (port : ℤ)
    → no_colon h ≡ true
    → IsInt port
    → host_port_pair (h ++ b':' ∷ print_long port) ≡ record { hostname = h; port = port }
unfolding host_port_pair
host_port_pair_join h port plain int =
    rw (host_port_pair, split_colon_join h (print_long port) plain, atoi-print_long port int) refl
