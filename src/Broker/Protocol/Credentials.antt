-- ===== src/Broker/Protocol/Credentials.antt =====
-- internal/broker/protocol, `ProxyAuthorization` and `TokenFromProxyAuthorization`.
use prison.Base.{
  ℕ, ◌≡◌, refl, sym, subst, false, ◌∷◌, ◌++◌, some, Text, codes, text_eq, All, All-append, cut,
  trim_space, to_lower, is_space, Lacks, contains, arith, trim_left, trim_right, keep_left,
}
use prison.Base.Chars.{cut-append, trim_space_id, trim_right_id}
use prison.Broker.Base64.{decode}
use prison.Broker.Base64.RoundTrip.{IsByte, decode-encode, encode-filled, encode-no_space}
use prison.Broker.Protocol.{proxy_authorization, password_of, token_from_proxy_authorization}

keep_more :
    (c d : ℕ) (s : Text)
    → trim_right is_space (d ∷ s) ≡ d ∷ s
    → trim_right is_space (c ∷ d ∷ s) ≡ c ∷ d ∷ s
keep_more c d s h = unfold trim_right in (rw h (unfold keep_left in refl))

-- The text of a header starts and ends with characters that `TrimSpace` keeps.
header_trimmed :
    (d : ℕ) (s : Text)
    → All (λ c. is_space c ≡ false) (d ∷ s)
    → trim_space (codes "Basic " ++ d ∷ s) ≡ codes "Basic " ++ d ∷ s
unfolding trim_space trim_left is_space
header_trimmed d s h =
    let e = trim_right_id (d ∷ s) h in
    keep_more _ _ _
      (keep_more _ _ _ (keep_more _ _ _ (keep_more _ _ _ (keep_more _ _ _ (keep_more _ d s e)))))

basic-Lacks : Lacks b' ' (codes "Basic")
unfolding contains
basic-Lacks = refl

password-of_token :
    (c : ℕ) (token : Text) → password_of (some (codes "prison:" ++ c ∷ token)) ≡ some (c ∷ token)
unfolding password_of text_eq cut
password-of_token c token = refl

header_token :
    (c : ℕ) (token : Text) (d : ℕ) (t : Text)
    → All (λ x. is_space x ≡ false) (d ∷ t)
    → decode (d ∷ t) ≡ some (codes "prison:" ++ c ∷ token)
    → token_from_proxy_authorization (codes "Basic " ++ d ∷ t) ≡ some (c ∷ token)
unfolding token_from_proxy_authorization to_lower text_eq
header_token c token d t plain back =
    rw
      (
        header_trimmed d t plain,
        cut-append b' ' (codes "Basic") (d ∷ t) basic-Lacks,
        trim_space_id (d ∷ t) plain,
        back,
      )
      (password-of_token c token)

-- The token of a header that `ProxyAuthorization` made is read back, when the token is a list of
-- bytes and not empty.
pub token-proxy_authorization :
    (c : ℕ) (token : Text)
    → All IsByte (c ∷ token)
    → token_from_proxy_authorization (proxy_authorization (c ∷ token)) ≡ some (c ∷ token)
unfolding proxy_authorization
token-proxy_authorization c token h =
    let bytes : All IsByte (codes "prison:" ++ c ∷ token) =
      All-append IsByte (codes "prison:") (c ∷ token)
        (
          omega arith,
          (
            omega arith,
            (omega arith, (omega arith, (omega arith, (omega arith, (omega arith, tt))))),
          ),
        )
        h in
    let user : Text = codes "prison:" ++ c ∷ token in
    let (d, t, e) = encode-filled b'p' (codes "rison:" ++ c ∷ token) in
    subst
      (λ x.
        All (λ y. is_space y ≡ false) x
        → decode x ≡ some user
        → token_from_proxy_authorization (codes "Basic " ++ x) ≡ some (c ∷ token))
      (sym e) (header_token c token d t) (encode-no_space user bytes) (decode-encode user bytes)
