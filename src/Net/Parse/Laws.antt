-- ===== src/Net/Parse/Laws.antt =====
-- When the parser of received packets panics.
use stream_os.Base.{
  ℕ, ◌*◌, ◌%◌, ◌<◌, ◌≤◌, suc, ◌≡◌, ◌≢◌, ◌↔◌, refl, arith, List, [], ◌∷◌, none, some, Result, ok,
  err, length,
}
use stream_os.Net.Ethernet
use stream_os.Net.Ethernet.{EthernetFrameParams}
use stream_os.Net.Ethernet.Laws.{new_total, new-IsReadable}
use stream_os.Net.Arp
use stream_os.Net.Ipv4
use stream_os.Net.Ipv4.Laws.{ipv4_new-panics_iff}
use stream_os.Net.Parse.{parse_arp, parse_ip, parse_inner, parse_packet}

-- What makes the parser panic: an Ethernet frame of type IPv4 that passes validation, with a
-- payload of one to three bytes whose first byte announces a header no longer than the payload.
pub record IsStub (p : List ℕ) : Type 0 where
  pub frame : List ℕ
  pub accepted : Ethernet.new p ≡ some (ok frame)
  pub kind : Ethernet.ether_type frame ≡ some 0x0800
  pub first : ℕ
  pub rest : List ℕ
  pub body : Ethernet.payload frame ≡ some (first ∷ rest)
  pub short : length rest < 3
  pub header : first % 16 * 4 ≤ suc (length rest)

parse_arp-ne-none : (payload : List ℕ) → parse_arp payload ≢ none
unfolding parse_arp Arp.new
parse_arp-ne-none payload e = ground arith

parse_inner-none_iff :
    (body : List ℕ) (t : ℕ) → (parse_inner body t ≡ none) ↔ ((t ≡ 0x0800) × (Ipv4.new body ≡ none))
unfolding parse_inner parse_ip
parse_inner-none_iff body t = ground (arith, parse_arp-ne-none body)

parse_packet-none_iff :
    (p frame body : List ℕ) (t : ℕ)
    → Ethernet.new p ≡ some (ok frame)
    → Ethernet.payload frame ≡ some body
    → Ethernet.ether_type frame ≡ some t
    → (parse_packet p ≡ none) ↔ (parse_inner body t ≡ none)
unfolding parse_packet
parse_packet-none_iff p frame body t e pe te = rw (e, pe, te) (ground arith)

IsStub-parse_packet : (p : List ℕ) → IsStub p → parse_packet p ≡ none
IsStub-parse_packet p s =
    (parse_packet-none_iff p s.frame (s.first ∷ s.rest) 0x0800 s.accepted s.body s.kind).1 (
      (parse_inner-none_iff (s.first ∷ s.rest) 0x0800).1
        (refl, (ipv4_new-panics_iff s.first s.rest).1 (s.short, s.header)))

IsStub-of :
    (p frame body : List ℕ) (t : ℕ)
    → Ethernet.new p ≡ some (ok frame)
    → Ethernet.payload frame ≡ some body
    → Ethernet.ether_type frame ≡ some t
    → 0 < length body
    → (t ≡ 0x0800) × (Ipv4.new body ≡ none)
    → IsStub p
IsStub-of p frame [] t e pe te long h = absurd (omega arith)
IsStub-of p frame (first ∷ rest) t e pe te long h =
    let bad = (ipv4_new-panics_iff first rest).0 h.1 in
    record {
      frame = frame;
      accepted = e;
      kind = rw h.0 at te;
      first = first;
      rest = rest;
      body = pe;
      short = bad.0;
      header = bad.1;
    }

parse_packet-refused :
    (p : List ℕ) (e : Ethernet.InvalidEthernetFrame)
    → Ethernet.new p ≡ some (err e)
    → parse_packet p ≢ none
unfolding parse_packet
parse_packet-refused p e h = rw h (λ k. cc)

IsStub-of_panic :
    (p : List ℕ) (r : Result (List ℕ) Ethernet.InvalidEthernetFrame)
    → Ethernet.new p ≡ some r
    → parse_packet p ≡ none
    → IsStub p
IsStub-of_panic p (err e) h none_e = absurd (parse_packet-refused p e h none_e)
IsStub-of_panic p (ok frame) h none_e =
    let r = new-IsReadable p frame h in
    IsStub-of p frame r.body r.kind h r.body_read.0 r.kind_read r.body_read.1 (
      (parse_inner-none_iff r.body r.kind).0
        ((parse_packet-none_iff p frame r.body r.kind h r.body_read.0 r.kind_read).0 none_e))

-- Whatever bytes arrive, parsing them answers, except that it panics exactly on the packets that
-- `IsStub` describes.
pub parse_packet-panics_iff : (p : List ℕ) → (parse_packet p ≡ none) ↔ IsStub p
parse_packet-panics_iff p =
    let (r, e) = new_total p in (IsStub-of_panic p r e, IsStub-parse_packet p)
