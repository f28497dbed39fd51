-- ===== src/Core/Sdf/Words.antt =====
-- The regular expression of ParseSdfFilter on the words of a printed flow description.
use eupf.Base.{
  ℕ, ◌≤◌, ◌≡◌, refl, Bool, true, false, ◌||◌, some, [], ◌∷◌, ◌++◌, arith, ◌==◌, List, All,
}
use eupf.Base.Text.{Text, codes, is_digit, every, some_of, is_number}
use eupf.Base.Text.Digits.{
  digits, digits-IsDigits, Begun, digits-Begun, every-IsDigits, is_number-digits,
}
use eupf.Base.Text.Split.{
  Lacks, IsDigits-Lacks, Lacks-append, cut-first, cut-last, every-append, split_on-join,
}
use eupf.Core.Sdf.{
  is_address, is_protocol, is_port_group, match_address, Match, source_match, is_destination,
  finish, match_destination, match_source_port, match_words, match_flow,
}
use eupf.Core.Sdf.Flow.{
  Protocol, icmp, ip, tcp, udp, icmp6, Host, any, address, network, Ports, all_ports, one_port,
  ports, IsHost, IsPorts, protocol_word, dotted, host_parts, host_word, port_word, port_words, Flow,
  IsFlow, flow_words, print_flow,
}

pub is_protocol-word : (p : Protocol) → is_protocol (protocol_word p) ≡ true
unfolding is_protocol is_number some_of every
is_protocol-word icmp = refl
is_protocol-word ip = refl
is_protocol-word tcp = refl
is_protocol-word udp = refl
is_protocol-word icmp6 = refl

pub digits-Lacks : (sep places n : ℕ) → is_digit sep ≡ false → Lacks sep (digits places n)
digits-Lacks sep places n h = IsDigits-Lacks sep (digits places n) h (digits-IsDigits places n)

pub dotted-Lacks :
    (sep a b c d : ℕ) → is_digit sep ≡ false → (b'.' == sep) ≡ false → Lacks sep (dotted a b c d)
dotted-Lacks sep a b c d h k = Lacks-append sep (digits 3 a) _ (digits-Lacks sep 3 a h) (
  k,
  Lacks-append sep (digits 3 b) _ (digits-Lacks sep 3 b h)
      (k, Lacks-append sep (digits 3 c) _ (digits-Lacks sep 3 c h) (k, digits-Lacks sep 3 d h)),
)

abbrev dot_or_digit : ℕ → Bool
dot_or_digit c = is_digit c || c == b'.'

every-dots : (places n : ℕ) → every dot_or_digit (digits places n) ≡ true
every-dots places n =
    every-IsDigits dot_or_digit (digits places n) (λ c h. ground (arith, h))
      (digits-IsDigits places n)

every-then_dot :
    (n : ℕ) (rest : Text)
    → every dot_or_digit rest ≡ true
    → every dot_or_digit (digits 3 n ++ (b'.' ∷ rest)) ≡ true
unfolding every
every-then_dot n rest h = every-append dot_or_digit (digits 3 n) (b'.' ∷ rest) (every-dots 3 n) h

pub Begun-append : (cs ds : Text) → Begun cs → Begun (cs ++ ds)
Begun-append [] ds h = absurd h
Begun-append (c ∷ cs) ds h = h

pub dotted-Begun : (a b c d : ℕ) → a ≤ 255 → Begun (dotted a b c d)
dotted-Begun a b c d h = Begun-append (digits 3 a) _ (digits-Begun 2 a (omega (arith, h)))

some_of-Begun : (p : ℕ → Bool) (cs : Text) → Begun cs → every p cs ≡ true → some_of p cs ≡ true
unfolding some_of
some_of-Begun p [] h k = absurd h
some_of-Begun p (c ∷ cs) h k = k

pub is_address-dotted : (a b c d : ℕ) → a ≤ 255 → is_address (dotted a b c d) ≡ true
unfolding is_address
is_address-dotted a b c d h = ground (
  arith,
  some_of-Begun dot_or_digit (dotted a b c d) (dotted-Begun a b c d h)
      (every-then_dot a _ (every-then_dot b _ (every-then_dot c _ (every-dots 3 d)))),
)

is_address-any : is_address (codes "any") ≡ true
unfolding is_address
is_address-any = refl

-- For `is_destination` as for `is_address`, which it includes.
pub match_address-host :
    (test : Text → Bool) (h : Host)
    → ((w : Text) → is_address w ≡ true → test w ≡ true)
    → IsHost h
    → match_address test (host_word h) ≡ some (host_parts h)
unfolding match_address
match_address-host test any k v = rw (k (codes "any") is_address-any) refl
match_address-host test (address a b c d) k v =
    rw
      (
        cut-last b'/' (dotted a b c d) (dotted-Lacks b'/' a b c d refl refl),
        k (dotted a b c d) (is_address-dotted a b c d v.0),
      )
      refl
match_address-host test (network a b c d len) k v =
    rw
      (
        cut-first b'/' (dotted a b c d) (digits 2 len) (dotted-Lacks b'/' a b c d refl refl),
        k (dotted a b c d) (is_address-dotted a b c d v.0),
        is_number-digits 1 len (omega (arith, v.4)),
      )
      refl

is_port_group-one : (p : ℕ) → p ≤ 65535 → is_port_group (digits 5 p) ≡ true
unfolding is_port_group
is_port_group-one p h =
    rw
      (
        cut-last b'-' (digits 5 p) (digits-Lacks b'-' 5 p refl),
        is_number-digits 4 p (omega (arith, h)),
      )
      refl

is_port_group-two :
    (p q : ℕ) → IsPorts (ports p q) → is_port_group (digits 5 p ++ (b'-' ∷ digits 5 q)) ≡ true
unfolding is_port_group
is_port_group-two p q h =
    rw
      (
        cut-first b'-' (digits 5 p) (digits 5 q) (digits-Lacks b'-' 5 p refl),
        is_number-digits 4 p (omega (arith, h)),
        is_number-digits 4 q (omega (arith, h)),
      )
      refl

-- What the groups of the regular expression hold.
abbrev pub flow_match : Flow → Match
flow_match f = record {
  protocol = protocol_word f.flow_protocol;
  src = (host_parts f.from_host).0;
  src_mask = (host_parts f.from_host).1;
  src_port = port_word f.from_ports;
  dst = (host_parts f.to_host).0;
  dst_mask = (host_parts f.to_host).1;
  dst_port = port_word f.to_ports;
}

finish-ports :
    (m : Match) (ps : Ports)
    → IsPorts ps
    → m.dst_port ≡ []
    → finish m (port_words ps) ≡ some (record m { dst_port = port_word ps })
unfolding match_flow
finish-ports m all_ports h e = rw e refl
finish-ports m (one_port p) h e = rw (is_port_group-one p h) refl
finish-ports m (ports p q) h e = rw (is_port_group-two p q h) refl

match_source_port-ports :
    (p s mask : Text) (ps : Ports) (rest : List Text)
    → IsPorts ps
    → match_source_port (source_match p s mask) (port_words ps ++ (codes "to" ∷ rest))
      ≡ match_destination
          (record (source_match p s mask) { src_port = port_word ps })
          (codes "to" ∷ rest)
unfolding match_flow
match_source_port-ports p s mask all_ports rest h = refl
match_source_port-ports p s mask (one_port n) rest h = rw (is_port_group-one n h) refl
match_source_port-ports p s mask (ports n k) rest h = rw (is_port_group-two n k h) refl

is_destination-address : (w : Text) → is_address w ≡ true → is_destination w ≡ true
is_destination-address w h = ground (arith, h)

match_words-flow : (f : Flow) → IsFlow f → match_words (flow_words f) ≡ some (flow_match f)
unfolding match_flow
match_words-flow f h =
    rw
      (
        match_words,
        match_address-host is_address f.from_host (λ w e. e) h.0,
        is_protocol-word f.flow_protocol,
        match_source_port-ports (protocol_word f.flow_protocol) (host_parts f.from_host).0
            (host_parts f.from_host).1 f.from_ports (host_word f.to_host ∷ port_words f.to_ports)
            h.1,
        match_destination,
        match_address-host is_destination f.to_host is_destination-address h.2,
      )
      (finish-ports (record (flow_match f) { dst_port = [] }) f.to_ports h.3 refl)

host_word-Lacks : (h : Host) → Lacks b' ' (host_word h)
host_word-Lacks any = (refl, (refl, (refl, tt)))
host_word-Lacks (address a b c d) = dotted-Lacks b' ' a b c d refl refl
host_word-Lacks (network a b c d len) =
    Lacks-append b' ' (dotted a b c d) _ (dotted-Lacks b' ' a b c d refl refl)
      (refl, digits-Lacks b' ' 2 len refl)

protocol_word-Lacks : (p : Protocol) → Lacks b' ' (protocol_word p)
protocol_word-Lacks icmp = (refl, (refl, (refl, (refl, tt))))
protocol_word-Lacks ip = (refl, (refl, tt))
protocol_word-Lacks tcp = (refl, (refl, (refl, tt)))
protocol_word-Lacks udp = (refl, (refl, (refl, tt)))
protocol_word-Lacks icmp6 = (refl, (refl, tt))

port_words-Lacks :
    (ps : Ports) (rest : List Text)
    → All (Lacks b' ') rest
    → All (Lacks b' ') (port_words ps ++ rest)
port_words-Lacks all_ports rest h = h
port_words-Lacks (one_port p) rest h = (digits-Lacks b' ' 5 p refl, h)
port_words-Lacks (ports p q) rest h = (
  Lacks-append b' ' (digits 5 p) _ (digits-Lacks b' ' 5 p refl) (refl, digits-Lacks b' ' 5 q refl),
  h,
)

last_words-Lacks : (ps : Ports) → All (Lacks b' ') (port_words ps)
last_words-Lacks all_ports = tt
last_words-Lacks (one_port p) = (digits-Lacks b' ' 5 p refl, tt)
last_words-Lacks (ports p q) = port_words-Lacks (ports p q) [] tt

flow_words-Lacks : (f : Flow) → All (Lacks b' ') (flow_words f)
flow_words-Lacks f = (
  (refl, (refl, (refl, (refl, (refl, (refl, tt)))))),
  (
    (refl, (refl, (refl, tt))),
    (
      protocol_word-Lacks f.flow_protocol,
      (
        (refl, (refl, (refl, (refl, tt)))),
        (
          host_word-Lacks f.from_host,
          port_words-Lacks f.from_ports (codes "to" ∷ host_word f.to_host ∷ port_words f.to_ports)
              ((refl, (refl, tt)), (host_word-Lacks f.to_host, last_words-Lacks f.to_ports)),
        ),
      ),
    ),
  ),
)

pub match_flow-print : (f : Flow) → IsFlow f → match_flow (print_flow f) ≡ some (flow_match f)
unfolding match_flow print_flow
match_flow-print f h =
    rw
      (split_on-join b' ' (codes "permit")
        (codes "out"
          ∷ protocol_word f.flow_protocol
          ∷ codes "from"
          ∷ host_word f.from_host
          ∷ (port_words f.from_ports ++ (codes "to" ∷ host_word f.to_host ∷ port_words f.to_ports)))
        (flow_words-Lacks f))
      (match_words-flow f h)
