-- ===== src/Searest/Address.antt =====
-- The address of a client, and the check of a new connection (src/searest.c, client_ip_str and
-- uhd_client_connect). inet_ntop is a parameter.
use webstore.Base.{
  ℕ, ◌≡◌, refl, Option, none, some, [], ◌∷◌, ◌++◌, arith, length, take, drop, length-append,
  drop-append, append_assoc, ◌∙◌, ap, sym, subst,
}
use webstore.Base.Bytes.{Bytes}
use webstore.Redis.{Redis}
use webstore.Server.{WsRt, M, pure}
use webstore.Searest.{Sri, AddrCallback}

pub data Family : Type 0 where
  inet inet6 other_family : Family

-- a struct sockaddr: the family, and the bytes after its two
pub record SockAddr : Type 0 where
  pub family : Family
  pub body : Bytes

-- inet_ntop of the four bytes of an IPv4 address, and of the sixteen of an IPv6 address
pub record Ntop : Type 0 where
  pub v4 : Bytes → Bytes
  pub v6 : Bytes → Bytes

-- &in->sin_addr of a struct sockaddr_in: behind the two bytes of the port
abbrev sin_addr : SockAddr → Bytes
sin_addr a = drop 2 a.body

by_family : Ntop → SockAddr → Family → Option Bytes
by_family ntop a inet = some (ntop.v4 (take 4 (sin_addr a)))
by_family ntop a inet6 = some (ntop.v6 (take 16 (sin_addr a)))
by_family ntop a other_family = none

pub ip_text : Ntop → SockAddr → Option Bytes
unfolding by_family
ip_text ntop a = by_family ntop a a.family

-- none is an address that libmicrohttpd does not know
unfoldable pub client_ip_str : Ntop → Option SockAddr → Option Bytes
client_ip_str ntop none = none
client_ip_str ntop (some a) = ip_text ntop a

ask : {R : Redis} → WsRt → Option (AddrCallback R) → Option Bytes → M R ℕ
ask rt none ip = pure 1
ask rt (some addr_cb) none = pure 0
ask rt (some addr_cb) (some ip) = addr_cb rt ip

unfoldable pub uhd_client_connect : {R : Redis} → Ntop → Sri R → WsRt → Option SockAddr → M R ℕ
unfolding ask
uhd_client_connect ntop ws rt none = pure 0
uhd_client_connect ntop ws rt (some a) = ask rt ws.addr_cb (ip_text ntop a)

-- a struct sockaddr_in, and a struct sockaddr_in6 with its flow label before the address
abbrev pub sockaddr_in : Bytes → Bytes → Bytes → SockAddr
sockaddr_in port addr padding = record { family = inet; body = port ++ (addr ++ padding) }

abbrev pub sockaddr_in6 : Bytes → Bytes → Bytes → Bytes → SockAddr
sockaddr_in6 port flowinfo addr scope = record {
  family = inet6;
  body = port ++ (flowinfo ++ (addr ++ scope));
}

take-append : (xs ys : Bytes) → take (length xs) (xs ++ ys) ≡ xs
take-append [] ys = refl
take-append (x ∷ xs) ys = ap (λ zs. x ∷ zs) (take-append xs ys)

-- what is read of an address of `n` bytes
read_at :
    (n : ℕ) (port addr rest : Bytes)
    → length port ≡ 2
    → length addr ≡ n
    → take n (drop 2 (port ++ (addr ++ rest))) ≡ addr
read_at n port addr rest e f =
    subst (λ k. take n (drop k (port ++ (addr ++ rest))) ≡ addr) e
      (ap (take n) (drop-append port (addr ++ rest))
        ∙ subst (λ k. take k (addr ++ rest) ≡ addr) f (take-append addr rest))

pub ip_text-v4 :
    (ntop : Ntop) (port addr padding : Bytes)
    → length port ≡ 2
    → length addr ≡ 4
    → ip_text ntop (sockaddr_in port addr padding) ≡ some (ntop.v4 addr)
unfolding ip_text
ip_text-v4 ntop port addr padding e f = ap (λ b. some (ntop.v4 b)) (read_at 4 port addr padding e f)

ip_text-v6 :
    (ntop : Ntop) (port flowinfo prefix rest scope : Bytes)
    → length port ≡ 2
    → length flowinfo ≡ 4
    → length prefix ≡ 12
    → ip_text ntop (sockaddr_in6 port flowinfo (prefix ++ rest) scope)
      ≡ some (ntop.v6 (flowinfo ++ prefix))
unfolding ip_text
ip_text-v6 ntop port flowinfo prefix rest scope e f h =
    ap (λ b. some (ntop.v6 (take 16 (drop 2 (port ++ b))))) (regroup)
    ∙ ap (λ b. some (ntop.v6 b))
        (read_at 16 port (flowinfo ++ prefix) (rest ++ scope) e
          (omega (arith, length-append {0} flowinfo prefix, f, h)))
  where
    regroup : flowinfo ++ ((prefix ++ rest) ++ scope) ≡ (flowinfo ++ prefix) ++ (rest ++ scope)
    regroup =
        ap (λ b. flowinfo ++ b) (append_assoc prefix rest scope)
        ∙ sym (append_assoc flowinfo prefix (rest ++ scope))

-- Two IPv6 clients whose flow labels agree, and whose addresses agree in their first twelve bytes, are
-- one address to the check of new connections, whatever the last four bytes and the ports are: the
-- sixteen bytes are read at the place of an IPv4 address, where the flow label stands.
pub uhd_client_connect-v6 :
    {R : Redis} (ntop : Ntop) (ws : Sri R) (rt : WsRt)
    (port port' flowinfo prefix rest rest' scope scope' : Bytes)
    → length port ≡ 2
    → length port' ≡ 2
    → length flowinfo ≡ 4
    → length prefix ≡ 12
    → uhd_client_connect ntop ws rt (some (sockaddr_in6 port flowinfo (prefix ++ rest) scope))
      ≡ uhd_client_connect ntop ws rt (some (sockaddr_in6 port' flowinfo (prefix ++ rest') scope'))
unfolding uhd_client_connect
uhd_client_connect-v6 ntop ws rt port port' flowinfo prefix rest rest' scope scope' e e' f h =
    ap (ask rt ws.addr_cb) (
      ip_text-v6 ntop port flowinfo prefix rest scope e f h
      ∙ sym (ip_text-v6 ntop port' flowinfo prefix rest' scope' e' f h))
