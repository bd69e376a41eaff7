-- ===== src/Socket/Address.antt =====
-- UDP addresses in src/starnet_socket_server.cpp: PackUdpAddress, UnpackUdpAddress and SendUdp.
-- Bytes of a port and of an address are as the system has them in a sockaddr.
use starnet.Common.{
  ℕ, zero, suc, ◌+◌, ◌≡◌, ◌⊎◌, inl, inr, Bool-cases, refl, ap, ◌∙◌, Bool, true, false, Option, none,
  some, List, [], ◌∷◌, ◌++◌, length, take, drop, take_whole, length-append, ltb, ◌==◌,
  if◌then◌else◌, arith,
}
use starnet.Service.{af_inet, af_inet6}
use starnet.Socket.{Conn, SocketServer}
use starnet.Socket.Server.{get_conn, set_conn}
use starnet.Socket.Server.Events.{set_at_self}
use starnet.Socket.Handlers.{set_udp_address}

-- The family, the port and the address.
pub record SockAddr : Type 0 where
  pub family : ℕ
  pub port : List ℕ
  pub ip : List ℕ

-- A family other than AF_INET is taken for AF_INET6.
unfoldable pub pack_udp_address : SockAddr → List ℕ
pack_udp_address sa =
    if sa.family == af_inet
    then af_inet ∷ (take 2 sa.port ++ take 4 sa.ip)
    else af_inet6 ∷ (take 2 sa.port ++ take 16 sa.ip)

abbrev unpack_ip : ℕ → ℕ → List ℕ → Option SockAddr
unpack_ip family size bytes =
    if ltb (length bytes) (2 + size)
    then none
    else some (record { family = family; port = take 2 bytes; ip = take size (drop 2 bytes) })

unfoldable pub unpack_udp_address : List ℕ → Option SockAddr
unpack_udp_address [] = none
unpack_udp_address (family ∷ bytes) =
    if ltb (length bytes) 2
    then none
    else if family == af_inet
    then unpack_ip af_inet 4 bytes
    else if family == af_inet6
    then unpack_ip af_inet6 16 bytes
    else none

abbrev is_none : List ℕ → Bool
is_none [] = true
is_none (b ∷ bs) = false

-- Where `SendUdp` sends: to the address it is given, if getaddrinfo finds it, else to that of the
-- connection.
unfoldable pub send_udp_to : SocketServer → ℕ → Option (Option SockAddr) → Option SockAddr
unfolding get_conn unpack_udp_address
send_udp_to s fd addr = elim (get_conn s fd) [
  | none ↦ none
  | some c ↦ elim addr [
    | some found ↦ found
    | none ↦ if is_none c.udp_addr then none else unpack_udp_address c.udp_addr
  ]
]

-- The result of `SendUdp`, with that of sendto, or none for -1.
unfoldable pub send_udp :
    SocketServer → ℕ → Option (Option SockAddr) → (SockAddr → Option ℕ) → Option ℕ
unfolding send_udp_to
send_udp s fd addr sendto = elim (send_udp_to s fd addr) [ none ↦ none | some sa ↦ sendto sa ]

-- A port of two bytes, and four of an address or sixteen.
pub record IsSockAddr (sa : SockAddr) (size : ℕ) : Type 0 where
  pub of_family : ((sa.family ≡ af_inet) × (size ≡ 4)) ⊎ ((sa.family ≡ af_inet6) × (size ≡ 16))
  pub two : length sa.port ≡ 2
  pub whole : length sa.ip ≡ size

take_front :
    (n : ℕ) (xs ys : List ℕ) → length xs ≡ n → (take n (xs ++ ys) ≡ xs) × (drop n (xs ++ ys) ≡ ys)
take_front zero [] ys e = (refl, refl)
take_front zero (x ∷ xs) ys e = absurd (omega (arith, e))
take_front (suc n) [] ys e = absurd (omega (arith, e))
take_front (suc n) (x ∷ xs) ys e =
    let (f, g) = take_front n xs ys (omega (arith, e)) in (ap (◌∷◌ x) f, g)

unpack_ip-whole :
    (family size : ℕ) (port ip : List ℕ)
    → length port ≡ 2
    → length ip ≡ size
    → unpack_ip family size (port ++ ip) ≡ some (record { family = family; port = port; ip = ip })
unpack_ip-whole family size port ip two whole =
    let n = length-append port ip in
    let e : ltb (length (port ++ ip)) (2 + size) ≡ false = ground (arith, n, two, whole) in
    let (f, g) = take_front 2 port ip two in
    rw (e, f, g, take_whole size ip (omega (arith, whole))) refl

pack_udp_address-is_none : (sa : SockAddr) → is_none (pack_udp_address sa) ≡ false
unfolding pack_udp_address
pack_udp_address-is_none sa = elim (Bool-cases (sa.family == af_inet)) [
  | inl e ↦ rw (pack_udp_address, e) refl
  | inr e ↦ rw (pack_udp_address, e) refl
]

-- What PackUdpAddress packs, UnpackUdpAddress unpacks.
unpack_udp_address-pack_udp_address :
    (sa : SockAddr) (size : ℕ)
    → IsSockAddr sa size
    → unpack_udp_address (pack_udp_address sa) ≡ some sa
unfolding unpack_udp_address pack_udp_address
unpack_udp_address-pack_udp_address sa size h = by_family h.of_family
  where
    at_least_two : (xs : List ℕ) → ltb (length (sa.port ++ xs)) 2 ≡ false
    at_least_two xs = let n = length-append sa.port xs in ground (arith, n, h.two)

    port_whole : take 2 sa.port ≡ sa.port
    port_whole = take_whole 2 sa.port (omega (arith, h.two))

    by_family :
        ((sa.family ≡ af_inet) × (size ≡ 4)) ⊎ ((sa.family ≡ af_inet6) × (size ≡ 16))
        → unpack_udp_address (pack_udp_address sa) ≡ some sa
    by_family (inl (e, f)) =
        let w = take_whole 4 sa.ip (omega (arith, h.whole, f)) in
        let u = unpack_ip-whole af_inet 4 sa.port sa.ip h.two (h.whole ∙ f) in
        rw (pack_udp_address, e, port_whole, w, at_least_two sa.ip) u
    by_family (inr (e, f)) =
        let w = take_whole 16 sa.ip (omega (arith, h.whole, f)) in
        let u = unpack_ip-whole af_inet6 16 sa.port sa.ip h.two (h.whole ∙ f) in
        rw (pack_udp_address, e, port_whole, w, at_least_two sa.ip) u

-- After SetUdpAddress with an address that getaddrinfo found, SendUdp without one sends to it.
pub send_udp_to-set_udp_address :
    (s : SocketServer) (fd : ℕ) (c : Conn) (sa : SockAddr) (size : ℕ)
    → s.conns fd ≡ some c
    → IsSockAddr sa size
    → send_udp_to (set_udp_address s fd (some (pack_udp_address sa))).1 fd none ≡ some sa
unfolding send_udp_to set_udp_address set_conn
send_udp_to-set_udp_address s fd c sa size e h =
    let c' : Conn = record c { udp_addr = pack_udp_address sa } in
    rw
      (
        set_udp_address,
        e,
        send_udp_to,
        set_at_self s.conns fd (some c'),
        pack_udp_address-is_none sa,
      )
      (unpack_udp_address-pack_udp_address sa size h)
