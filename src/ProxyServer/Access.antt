-- ===== src/ProxyServer/Access.antt =====
-- The credentials of vps/proxy_server.py: who is let in.
use kui_local_multi_exit.Prelude.{
  ℕ, true, false, List, [], ◌∷◌, any, In, any-In, inl, inr, ◌≡◌, ◌↔◌, refl, arith, Bool-cases,
}
use kui_local_multi_exit.Prelude.Url.{encode}
use kui_local_multi_exit.ProxyServer.{
  Bytes, Credentials, Session, Network, is_blank, same_bytes, fits, credentials_match,
  set_credentials, set_additional_credentials, set_enabled, sendall,
}
use kui_local_multi_exit.ProxyServer.Socks5.{socks5_client}

same_bytes_refl : (x : Bytes) → same_bytes x x ≡ true
unfolding same_bytes
same_bytes_refl [] = refl
same_bytes_refl (b ∷ bs) = ground (arith, same_bytes_refl bs)

same_bytes-eq : (x y : Bytes) → same_bytes x y ≡ true → x ≡ y
unfolding same_bytes
same_bytes-eq [] [] h = refl
same_bytes-eq [] (y ∷ ys) h = absurd (cc)
same_bytes-eq (x ∷ xs) [] h = absurd (cc)
same_bytes-eq (x ∷ xs) (y ∷ ys) h = ground (arith, same_bytes-eq xs ys)

-- The pairs that a client can log in with.
abbrev pub entries : Credentials → List (Bytes × Bytes)
entries c = (c.user, c.password) ∷ c.additional

fits-eq :
    (username password : Bytes) (e : Bytes × Bytes)
    → fits username password e ≡ true
    → ((username, password) ≡ e) × (is_blank username ≡ false) × (is_blank password ≡ false)
fits-eq username password e h =
    ground (arith, same_bytes-eq username e.0, same_bytes-eq password e.1)

fits_refl :
    (username password : Bytes)
    → is_blank username ≡ false
    → is_blank password ≡ false
    → fits username password (username, password) ≡ true
fits_refl username password u p = rw (u, p, same_bytes_refl username, same_bytes_refl password) refl

any-fits :
    (username password : Bytes) (es : List (Bytes × Bytes))
    → any (fits username password) es ≡ true
    → (is_blank username ≡ false) × (is_blank password ≡ false) × In (username, password) es
any-fits username password [] h = absurd (cc)
any-fits username password (e ∷ es) h = elim (Bool-cases (fits username password e)) [
  | inl f ↦ let same = fits-eq username password e f in (same.1, same.2, inl same.0)
  | inr f ↦ let later = any-fits username password es (rw f at h) in (later.0, later.1, inr later.2)
]

-- A pair of bytes logs in exactly if neither part is empty and it is the pair of the server or one of
-- the additional pairs.
pub credentials_match_iff :
    (c : Credentials) (username password : Bytes)
    → (credentials_match c username password ≡ true) ↔ (
        (is_blank username ≡ false)
        × (is_blank password ≡ false)
        × In (username, password) ((c.user, c.password) ∷ c.additional))
unfolding credentials_match
credentials_match_iff c username password = (
  any-fits username password ((c.user, c.password) ∷ c.additional),
  λ h.
      any-In (fits username password) ((c.user, c.password) ∷ c.additional) (username, password) h.2
        (fits_refl username password h.0 h.1),
)

sendall_keeps :
    (net : Network) (b : Bytes) (s : Session)
    → ((sendall net b s).1.acts ≡ s.acts) × ((sendall net b s).1.incoming ≡ s.incoming)
sendall_keeps net b s = elim (Bool-cases (net.takes s.sent b)) [
  | inl e ↦ rw e (refl, refl)
  | inr e ↦ rw e (refl, refl)
]

-- Once the proxy is disabled no pair logs in, and a SOCKS client gets no further than the refusal:
-- nothing is read from it and nothing is done for it.
pub disabled_proxy_refuses :
    (net : Network) (c : Credentials) (own : ℕ) (username password : Bytes) (s : Session)
    → (credentials_match (set_enabled false c) username password ≡ false)
      × ((socks5_client net (set_enabled false c) own s).1.acts ≡ s.acts)
      × ((socks5_client net (set_enabled false c) own s).1.incoming ≡ s.incoming)
unfolding credentials_match set_enabled socks5_client set_credentials set_additional_credentials
    encode
disabled_proxy_refuses net c own username password s =
    (refl, (sendall_keeps net (5 ∷ 255 ∷ []) s).0, (sendall_keeps net (5 ∷ 255 ∷ []) s).1)
