-- ===== src/ProxyServer/Socks5/Admission.antt =====
-- _socks5_client of vps/proxy_server.py: nothing is done for a client that does not know the password.
use kui_local_multi_exit.Prelude.{
  ℕ, ◌≢◌, Bool, true, false, not, ◌||◌, List, [], ◌∷◌, ◌++◌, ◌≡◌, refl, ◌∙◌, arith, length, eqb,
  eqb→eq, if◌then◌else◌, Bool-cases, inl, inr, false≢true,
}
use kui_local_multi_exit.Prelude.Exec.{
  Outcome, returned, raised, Meets, Meets-bind, Meets-if, Meets-map, Exec, proceed, pure, attempt,
  ◌>>=◌, ◌>>◌,
}
use kui_local_multi_exit.ProxyServer.{
  Bytes, Session, Network, Credentials, is_blank, credentials_match, sendall,
}
use kui_local_multi_exit.ProxyServer.Stream.{received}
use kui_local_multi_exit.ProxyServer.Socks5.{
  read, read_byte, byte_at, has, login, authenticate, serve, converse, socks5_client,
}
use kui_local_multi_exit.ProxyServer.Socks5.Conversation.{read_back, byte_back, sendall_back}
use kui_local_multi_exit.ProxyServer.Socks5.Served.{client_bytes, new_session}

-- The bytes begin with an offer of passwords and a pair that the credentials admit.
abbrev pub IsAdmitted : Credentials → Bytes → Type 0
IsAdmitted c bytes =
    (methods : Bytes) × (username : Bytes) × (password : Bytes) × (request : Bytes) × (bytes
      ≡ client_bytes methods username password request)
    × (has 2 methods ≡ true)
    × (credentials_match c username password ≡ true)

abbrev IsIdle : Session → Type 0
IsIdle s = s.acts ≡ []

-- What `login` has read when it accepts.
abbrev IsLogin : Credentials → ℕ → Bytes → Type 0
IsLogin c size bytes =
    (username : Bytes) × (password : Bytes) × (request : Bytes) × (length username ≡ size)
    × (bytes ≡ username ++ (length password ∷ (password ++ request)))
    × (credentials_match c username password ≡ true)

answer_back :
    (net : Network) (b : Bytes) (go : Bool) (P : Type 0) (s : Session)
    → IsIdle s
    → (go ≡ true → P)
    → Meets (λ g t. IsIdle t × (g ≡ true → P)) IsIdle ((sendall net b >> pure go) s)
answer_back net b go P s h p =
    Meets-bind (sendall net b) s _ _ _ _ (sendall_back net b [] s h) (λ u t q. (q.0, p))

login_back :
    (net : Network) (c : Credentials) (size : ℕ) (s : Session)
    → IsIdle s
    → Meets
        (λ g t. IsIdle t × (g ≡ true → IsLogin c size (received s.incoming)))
        IsIdle
        (login net c size s)
unfolding login
login_back net c size s h = Meets-bind (read size) s _ _ _ _ (read_back size [] s h) (λ user s1 q1.
    Meets-bind read_byte s1 _ _ _ _ (byte_back [] s1 q1.0) (λ n s2 q2.
      Meets-bind (read n) s2 _ _ _ _ (read_back n [] s2 q2.0) (λ pass s3 q3.
        Meets-if (not (credentials_match c user pass)) _ _ s3 _ _
          (λ e. answer_back net _ false _ s3 q3.0 (λ z. absurd (false≢true z)))
          (λ e. answer_back net _ true _ s3 q3.0 (λ z. (
            user,
            pass,
            received s3.incoming,
            q1.1,
            rw (q1.2, q2.1, q3.2, q3.1) refl,
            ground arith,
          ))))))

pair_of :
    (y rest all : Bytes)
    → length y ≡ 2
    → eqb (byte_at 0 y) 1 ≡ true
    → all ≡ y ++ rest
    → all ≡ 1 ∷ byte_at 1 y ∷ rest
pair_of [] rest all l o e = absurd (omega arith)
pair_of (a ∷ []) rest all l o e = absurd (omega arith)
pair_of (a ∷ b ∷ []) rest all l o e = rw (← eqb→eq a 1 o) e
pair_of (a ∷ b ∷ x ∷ y) rest all l o e = absurd (omega arith)

-- The part behind the answer to the offer.
abbrev ask : Network → Credentials → Exec Session Bool
ask net c = do
  request ← read 2
  if not (eqb (byte_at 0 request) 1) then pure false else login net c (byte_at 1 request)

abbrev IsAsked : Credentials → Bytes → Type 0
IsAsked c bytes =
    (username : Bytes) × (password : Bytes) × (request : Bytes) × (bytes
      ≡ 1 ∷ length username ∷ (username ++ (length password ∷ (password ++ request))))
    × (credentials_match c username password ≡ true)

ask_back :
    (net : Network) (c : Credentials) (s : Session)
    → IsIdle s
    → Meets (λ g t. IsIdle t × (g ≡ true → IsAsked c (received s.incoming))) IsIdle (ask net c s)
ask_back net c s h = Meets-bind (read 2) s _ _ _ _ (read_back 2 [] s h) (λ y s1 q1.
    Meets-if (not (eqb (byte_at 0 y) 1)) _ _ s1 _ _ (λ e. (q1.0, λ z. absurd (false≢true z)))
      (λ e.
        let sent =
          pair_of y (received s1.incoming) (received s.incoming) q1.1 (ground arith) q1.2 in
        Meets-map (login net c (byte_at 1 y) s1) _ _ IsIdle (login_back net c (byte_at 1 y) s1 q1.0)
          (λ g t q. (
            q.0,
            λ z.
                let (user, pass, rest, size, left, match) = q.1 z in
                (user, pass, rest, rw (sent, left, size) refl, match),
          ))))

authenticate_back :
    (net : Network) (c : Credentials) (s : Session)
    → IsIdle s
    → Meets
        (λ g t. IsIdle t × (g ≡ true → IsAdmitted c (received s.incoming)))
        IsIdle
        (authenticate net c s)
unfolding authenticate
authenticate_back net c s h = Meets-bind read_byte s _ _ _ _ (byte_back [] s h) (λ n s1 q1.
    Meets-bind (read n) s1 _ _ _ _ (read_back n [] s1 q1.0) (λ methods s2 q2.
      Meets-if (not (has 2 methods)) _ _ s2 _ _
        (λ e. answer_back net _ false _ s2 q2.0 (λ z. absurd (false≢true z)))
        (λ e.
          Meets-bind (sendall net (5 ∷ 2 ∷ [])) s2 _ _ _ _ (sendall_back net _ [] s2 q2.0)
            (λ u s3 q3. Meets-map (ask net c s3) _ _ IsIdle (ask_back net c s3 q3.0) (λ g t q. (
              q.0,
              λ z.
                  let a = q.1 z in
                  (
                    methods,
                    a.0,
                    a.1,
                    a.2,
                    rw (q1.1, q2.2, ← q3.1, a.3, q2.1) refl,
                    ground arith,
                    a.4,
                  ),
            ))))))

IsAdmitted-converse :
    (net : Network) (c : Credentials) (own : ℕ) (s : Session)
    → IsIdle s
    → (converse net c own s).1.acts ≢ []
    → IsAdmitted c (received s.incoming)
unfolding converse
IsAdmitted-converse net c own s h acts =
    go (authenticate net c s) (authenticate_back net c s h) acts
  where
    go :
        (r : Outcome Bool × Session)
        → Meets (λ g t. IsIdle t × (g ≡ true → IsAdmitted c (received s.incoming))) IsIdle r
        → (proceed {B = Unit} r.0 (λ go. if go then serve net own else pure tt) r.1).1.acts ≢ []
        → IsAdmitted c (received s.incoming)
    go (returned true, t) q k = q.1 refl
    go (returned false, t) q k = absurd (k q.0)
    go (raised e, t) q k = absurd (k q)

sendall_acts : (net : Network) (b : Bytes) (s : Session) → (sendall net b s).1.acts ≡ s.acts
sendall_acts net b s = elim (Bool-cases (net.takes s.sent b)) [
  | inl e ↦ rw e refl
  | inr e ↦ rw e refl
]

swallow_acts :
    (m : Exec Session Unit) (s : Session) → (attempt m (λ e. pure tt) s).1.acts ≡ (m s).1.acts
swallow_acts m s = go (m s)
  where
    go :
        (r : Outcome {0} Unit × Session)
        → (elim r.0 as (λ o. Outcome {0} Unit × Session) [
          | returned u ↦ (returned u, r.1)
          | raised e ↦ (returned tt, r.1)
        ]).1.acts
          ≡ r.1.acts
    go (returned u, t) = refl
    go (raised e, t) = refl

acts_of :
    (net : Network) (c : Credentials) (own : ℕ) (s : Session)
    → (socks5_client net c own s).1.acts
      ≡ (if is_blank c.user || is_blank c.password then s.acts else (converse net c own s).1.acts)
unfolding socks5_client
acts_of net c own s = elim (Bool-cases (is_blank c.user || is_blank c.password)) [
  | inl e ↦ rw e (sendall_acts net (5 ∷ 255 ∷ []) s)
  | inr e ↦ rw e (swallow_acts (converse net c own) s)
]

-- Whatever is done for a client, a dial or a UDP relay, the bytes that it sent begin with an offer of
-- passwords and a user name and a password that credentials_match accepts, and the server's own
-- credentials are set.
pub service_needs_password :
    (net : Network) (c : Credentials) (own : ℕ) (pieces : List Bytes)
    → (socks5_client net c own (new_session pieces)).1.acts ≢ []
    → IsAdmitted c (received pieces) × (is_blank c.user ≡ false) × (is_blank c.password ≡ false)
service_needs_password net c own pieces acts =
    let a = acts_of net c own (new_session pieces) in
    elim (Bool-cases (is_blank c.user || is_blank c.password)) [
      | inl e ↦ absurd (acts (a ∙ rw e refl))
      | inr e ↦ (
        IsAdmitted-converse net c own (new_session pieces) refl (λ z. acts (a ∙ rw e z)),
        ground arith,
        ground arith,
      )
    ]
