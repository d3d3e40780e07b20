-- ===== src/Http/Tokens.antt =====
-- The storage information that a download carries is split and compared.
use jn_server_cc.Base.{
  ℕ, suc, ◌≡◌, ◌≢◌, ◌↔◌, refl, true, [], ◌∷◌, ◌++◌, Bytes, bytes_eq_refl, eq_of_bytes_eq, ℤ, pos,
  negsuc, eqb_ℤ_refl, eq_of_parts, arith,
}
use jn_server_cc.Text.{print_long, print_ℕ}
use jn_server_cc.Text.RoundTrip.{
  no_colon, IsInt, all_digits, print_ℕ-all_digits, print_long_nonempty, atoi-print_long,
}
use jn_server_cc.Storage.{JnStorage}
use jn_server_cc.Http.{tokens, check_storage_info}

tokens_end : (c : ℕ) (a : Bytes) → no_colon (c ∷ a) ≡ true → tokens (c ∷ a) ≡ (c ∷ a) ∷ []
unfolding tokens
tokens_end c [] h = ground arith
tokens_end c (b ∷ a) h = ground (arith, tokens_end b a)

tokens_colon :
    (c : ℕ) (a s : Bytes)
    → no_colon (c ∷ a) ≡ true
    → tokens ((c ∷ a) ++ b':' ∷ s) ≡ (c ∷ a) ∷ tokens s
unfolding tokens
tokens_colon c [] s h = ground arith
tokens_colon c (b ∷ a) s h = ground (arith, tokens_colon b a s)

tokens_join : (a s : Bytes) → no_colon a ≡ true → a ≢ [] → tokens (a ++ b':' ∷ s) ≡ a ∷ tokens s
tokens_join [] s h ne = absurd (ne refl)
tokens_join (c ∷ a) s h ne = tokens_colon c a s h

tokens_last : (a : Bytes) → no_colon a ≡ true → a ≢ [] → tokens a ≡ a ∷ []
tokens_last [] h ne = absurd (ne refl)
tokens_last (c ∷ a) h ne = tokens_end c a h

all_digits-no_colon : (s : Bytes) → all_digits s ≡ true → no_colon s ≡ true
all_digits-no_colon [] h = refl
all_digits-no_colon (c ∷ s) h = ground (arith, all_digits-no_colon s)

print_long-no_colon : (z : ℤ) → no_colon (print_long z) ≡ true
unfolding print_long
print_long-no_colon (pos n) = all_digits-no_colon (print_ℕ n) (print_ℕ-all_digits n)
print_long-no_colon (negsuc n) = all_digits-no_colon (print_ℕ (suc n)) (print_ℕ-all_digits (suc n))

-- The storage information of a node, its four fields with colons between them.
abbrev pub colon_separated : ℤ → ℤ → ℤ → Bytes → Bytes
colon_separated layout ns c_time cid =
    print_long layout ++ b':' ∷ (print_long ns ++ b':' ∷ (print_long c_time ++ b':' ∷ cid))

tokens-colon_separated :
    (layout ns c_time : ℤ) (cid : Bytes)
    → no_colon cid ≡ true
    → cid ≢ []
    → tokens (colon_separated layout ns c_time cid)
      ≡ print_long layout ∷ print_long ns ∷ print_long c_time ∷ cid ∷ []
tokens-colon_separated layout ns c_time cid h ne =
    rw
      (
        tokens_join (print_long layout) (print_long ns ++ b':' ∷ (print_long c_time ++ b':' ∷ cid))
            (print_long-no_colon layout) (print_long_nonempty layout),
        tokens_join (print_long ns) (print_long c_time ++ b':' ∷ cid) (print_long-no_colon ns)
            (print_long_nonempty ns),
        tokens_join (print_long c_time) cid (print_long-no_colon c_time)
            (print_long_nonempty c_time),
        tokens_last cid h ne,
      )
      refl

-- A storage information of four fields with colons between them, printed numbers and a cluster id
-- that is not empty and has no colon, passes the check exactly when its namespace id, which is an
-- int, and its cluster id are those of the storage.
pub check_storage_info_lem :
    (st : JnStorage) (layout ns c_time : ℤ) (cid : Bytes)
    → IsInt ns
    → no_colon cid ≡ true
    → cid ≢ []
    → (check_storage_info st (colon_separated layout ns c_time cid) ≡ true)
      ↔ ((st.info.namespace_id ≡ ns) × (st.info.cluster_id ≡ cid))
unfolding check_storage_info
check_storage_info_lem st layout ns c_time cid int h ne =
    rw
      (check_storage_info, tokens-colon_separated layout ns c_time cid h ne, atoi-print_long ns int)
      (
        λ e.
            ground
              (arith, eq_of_parts st.info.namespace_id ns, eq_of_bytes_eq st.info.cluster_id cid),
        λ (e, f). rw (e, f) (ground (arith, eqb_ℤ_refl ns, bytes_eq_refl cid)),
      )
