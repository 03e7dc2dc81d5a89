-- ===== src/ProxyServer/Socks5/Served.antt =====
-- _socks5_client of vps/proxy_server.py: a client that knows the password is served.
use kui_local_multi_exit.Prelude.{
  ℕ, ◌+◌, ◌*◌, ◌/◌, ◌%◌, true, false, not, some, List, [], ◌∷◌, ◌++◌, ◌≡◌, refl, sym, ap, arith,
  length, any, ltb,
}
use kui_local_multi_exit.Prelude.Exec.{
  Outcome, returned, raised, Meets, Meets-bind, Meets-attempt, pure,
}
use kui_local_multi_exit.ProxyServer.{
  Bytes, Act, Host, ipv4, named, ipv6, dialled, relaying, upstream_closed, Session, Network,
  Credentials, credentials_match, is_blank, sendall,
}
use kui_local_multi_exit.ProxyServer.Stream.{received}
use kui_local_multi_exit.ProxyServer.Socks5.{
  read, read_byte, has, login, authenticate, read_host, serve_connect, serve, converse, converse,
  socks5_client, success,
}
use kui_local_multi_exit.ProxyServer.Socks5.Conversation.{
  At, Never, read_there, byte_there, sendall_there,
}

-- What a client sends that offers `methods`, logs in and says `request` then.
abbrev pub client_bytes : Bytes → Bytes → Bytes → Bytes → Bytes
client_bytes methods username password request =
    length methods
    ∷ (methods ++ (1 ∷ length username ∷ (username ++ (length password ∷ (password ++ request)))))

abbrev pub IsWilling : Network → Type 0
IsWilling net = (sent b : Bytes) → net.takes sent b ≡ true

login_there :
    (net : Network) (c : Credentials) (username password request answers : Bytes) (acts : List Act)
    (s : Session)
    → IsWilling net
    → credentials_match c username password ≡ true
    → At (username ++ (length password ∷ (password ++ request))) answers acts s
    → Meets
        (λ go t. (go ≡ true) × At request (answers ++ (1 ∷ 0 ∷ [])) acts t)
        Never
        (login net c (length username) s)
unfolding login
login_there net c username password request answers acts s w match h =
    Meets-bind (read (length username)) s _ _ _ _ (read_there username _ _ _ _ s refl h)
      (λ user s1 q1. Meets-bind read_byte s1 _ _ _ _ (byte_there _ _ _ _ s1 q1.1) (λ size s2 q2.
        Meets-bind (read size) s2 _ _ _ _ (read_there password _ _ _ size s2 (sym q2.0) q2.1)
          (λ pass s3 q3.
            rw (q1.0, q3.0, match)
              (Meets-bind (sendall net (1 ∷ 0 ∷ [])) s3 _ _ _ _
                (sendall_there net _ _ _ _ s3 (w _ _) q3.1) (λ u s4 q4. (refl, q4))))))

authenticate_there :
    (net : Network) (c : Credentials) (methods username password request answers : Bytes)
    (acts : List Act) (s : Session)
    → IsWilling net
    → has 2 methods ≡ true
    → credentials_match c username password ≡ true
    → At (client_bytes methods username password request) answers acts s
    → Meets
        (λ go t. (go ≡ true) × At request ((answers ++ (5 ∷ 2 ∷ [])) ++ (1 ∷ 0 ∷ [])) acts t)
        Never
        (authenticate net c s)
unfolding authenticate
authenticate_there net c methods username password request answers acts s w two match h =
    Meets-bind read_byte s _ _ _ _ (byte_there _ _ _ _ s h) (λ count s1 q1.
      Meets-bind (read count) s1 _ _ _ _ (read_there methods _ _ _ count s1 (sym q1.0) q1.1)
        (λ ms s2 q2.
          rw (q2.0, two)
            (Meets-bind (sendall net (5 ∷ 2 ∷ [])) s2 _ _ _ _
              (sendall_there net _ _ _ _ s2 (w _ _) q2.1)
              (λ u s3 q3.
                Meets-bind (read 2) s3 _ _ _ _
                  (read_there (1 ∷ length username ∷ []) _ _ _ 2 s3 refl q3)
                  (λ login s4 q4.
                    rw q4.0
                      (login_there net c username password request _ acts s4 w match q4.1))))))

abbrev pub kind_of : Host → ℕ
kind_of (ipv4 b) = 1
kind_of (named b) = 3
kind_of (ipv6 b) = 4

abbrev pub address : Host → Bytes
address (ipv4 b) = b
address (named b) = length b ∷ b
address (ipv6 b) = b

-- An address has the length of its kind, and a name is ASCII.
abbrev pub IsSendable : Host → Type 0
IsSendable (ipv4 b) = length b ≡ 4
IsSendable (named b) = any (λ x. not (ltb x 128)) b ≡ false
IsSendable (ipv6 b) = length b ≡ 16

-- The request for a connection to `host` at `port`, with what follows it.
abbrev pub connect_bytes : Host → ℕ → Bytes → Bytes
connect_bytes host port payload =
    5 ∷ 1 ∷ 0 ∷ kind_of host ∷ (address host ++ (port / 256 ∷ port % 256 ∷ payload))

read_host_there :
    (host : Host) (left answers : Bytes) (acts : List Act) (s : Session)
    → IsSendable host
    → At (address host ++ left) answers acts s
    → Meets (λ o t. (o ≡ some host) × At left answers acts t) Never (read_host (kind_of host) s)
unfolding read_host
read_host_there (ipv4 b) left answers acts s l h =
    Meets-bind (read 4) s _ _ _ _ (read_there b _ _ _ 4 s l h)
      (λ y t q. (ap (λ x. some (ipv4 x)) q.0, q.1))
read_host_there (ipv6 b) left answers acts s l h =
    Meets-bind (read 16) s _ _ _ _ (read_there b _ _ _ 16 s l h)
      (λ y t q. (ap (λ x. some (ipv6 x)) q.0, q.1))
read_host_there (named b) left answers acts s l h =
    Meets-bind read_byte s _ _ _ _ (byte_there _ _ _ _ s h) (λ size s1 q1.
      Meets-bind (read size) s1 _ _ _ _ (read_there b _ _ _ size s1 (sym q1.0) q1.1)
        (λ y s2 q2. rw (q2.0, l) (refl, q2.1)))

relay_there :
    (net : Network) (host : Host) (port : ℕ) (left answers : Bytes) (acts : List Act) (s : Session)
    → IsWilling net
    → IsSendable host
    → net.connects host port ≡ true
    → At (port / 256 ∷ port % 256 ∷ left) answers acts s
    → Meets
        (λ u t.
          At left
            (answers ++ (success ++ (0 ∷ 0 ∷ [])))
            (((acts ++ (dialled host port ∷ [])) ++ (relaying host port ∷ []))
              ++ (upstream_closed host port ∷ []))
            t)
        Never
        (serve_connect net (some host) s)
unfolding serve_connect
relay_there net host port left answers acts s w l c h =
    Meets-bind (read 2) s _ _ _ _ (read_there (port / 256 ∷ port % 256 ∷ []) _ _ _ 2 s refl h)
      (λ y t q.
        let whole : port / 256 * 256 + port % 256 ≡ port = omega arith in
        rw (q.0, whole, c, w t.sent (success ++ (0 ∷ 0 ∷ [])))
          (rw (q.1.1, q.1.2) (q.1.0, refl, refl)))

serve_there :
    (net : Network) (host : Host) (port own : ℕ) (left answers : Bytes) (acts : List Act)
    (s : Session)
    → IsWilling net
    → IsSendable host
    → net.connects host port ≡ true
    → At (connect_bytes host port left) answers acts s
    → Meets
        (λ u t.
          At left
            (answers ++ (success ++ (0 ∷ 0 ∷ [])))
            (((acts ++ (dialled host port ∷ [])) ++ (relaying host port ∷ []))
              ++ (upstream_closed host port ∷ []))
            t)
        Never
        (serve net own s)
unfolding serve
serve_there net host port own left answers acts s w l c h =
    Meets-bind (read 4) s _ _ _ _ (read_there (5 ∷ 1 ∷ 0 ∷ kind_of host ∷ []) _ _ _ 4 s refl h)
      (λ y s1 q1. rw q1.0 (
        Meets-bind (read_host (kind_of host)) s1 _ _ _ _ (read_host_there host _ _ _ s1 l q1.1)
          (λ o s2 q2. rw q2.0 (relay_there net host port left _ _ s2 w l c q2.1))))

At-outcome :
    {left answers : Bytes} {acts : List Act} (r : Outcome Unit × Session)
    → Meets (λ u t. At left answers acts t) Never r
    → At left answers acts r.1
At-outcome (returned u, s) h = h
At-outcome (raised e, s) h = absurd h

abbrev pub new_session : List Bytes → Session
new_session cs = record { incoming = cs; sent = []; acts = [] }

converse_there :
    (net : Network) (c : Credentials) (own : ℕ) (methods username password : Bytes) (host : Host)
    (port : ℕ) (payload : Bytes) (s : Session)
    → IsWilling net
    → has 2 methods ≡ true
    → credentials_match c username password ≡ true
    → IsSendable host
    → net.connects host port ≡ true
    → At (client_bytes methods username password (connect_bytes host port payload)) [] [] s
    → Meets
        (λ u t.
          At payload
            (5 ∷ 2 ∷ 1 ∷ 0 ∷ (success ++ (0 ∷ 0 ∷ [])))
            (dialled host port ∷ relaying host port ∷ upstream_closed host port ∷ [])
            t)
        Never
        (converse net c own s)
unfolding converse
converse_there net c own methods username password host port payload s w two match l con h =
    Meets-bind (authenticate net c) s _ _ _ _
      (authenticate_there net c methods username password _ _ _ s w two match h)
      (λ go t q. rw q.0 (serve_there net host port own payload _ _ t w l con q.1))

-- A client that offers the method of passwords, sends a pair that credentials_match accepts and asks
-- for a connection gets it, however its bytes are cut into pieces: the program dials that host at
-- that port and nothing else, sends the three answers of the protocol, relays, and closes what it
-- dialled; what the client sent behind its request is left for the relay. The credentials of the
-- server are set, the client takes its answers, and the host can be connected to.
pub socks5_client_serves :
    (net : Network) (c : Credentials) (own : ℕ) (methods username password : Bytes) (host : Host)
    (port : ℕ) (payload : Bytes) (pieces : List Bytes)
    → IsWilling net
    → is_blank c.user ≡ false
    → is_blank c.password ≡ false
    → has 2 methods ≡ true
    → credentials_match c username password ≡ true
    → IsSendable host
    → net.connects host port ≡ true
    → received pieces ≡ client_bytes methods username password (connect_bytes host port payload)
    → (received (socks5_client net c own (new_session pieces)).1.incoming ≡ payload)
      × ((socks5_client net c own (new_session pieces)).1.sent
          ≡ 5 ∷ 2 ∷ 1 ∷ 0 ∷ (success ++ (0 ∷ 0 ∷ [])))
      × ((socks5_client net c own (new_session pieces)).1.acts
          ≡ dialled host port ∷ relaying host port ∷ upstream_closed host port ∷ [])
unfolding socks5_client
socks5_client_serves net c own methods username password host port payload pieces w u p two match l
      con h =
    let pieces_there =
      converse_there net c own methods username password host port payload (new_session pieces) w
        two match l con (h, refl, refl) in
    rw (u, p)
      (At-outcome _ (
        Meets-attempt (converse net c own) (λ e. pure tt) (new_session pieces) _ Never Never
          pieces_there (λ e s' n. absurd n)))
