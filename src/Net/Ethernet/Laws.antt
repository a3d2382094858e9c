-- ===== src/Net/Ethernet/Laws.antt =====
-- Validation makes the accessors safe, and a generated frame is read back.
use stream_os.Base.{
  ℕ, ◌+◌, ◌-◌, ◌<◌, ◌≤◌, ◌≡◌, arith, List, Option, none, some, Result, ok, err, length,
  slice-length, Bool-cases, ltb, if◌then◌else◌, inl, inr, u16_be_at, u16_be_at-some, u32_be_at-some,
  ◌==◌, ◌&&◌, leb, lt→ltb, ltb→lt,
}
use stream_os.Net.Ethernet.{
  new, destination_mac, source_mac, tag, ether_type, payload, crc, InvalidEthernetFrame, invalid,
}

-- What validation says of a packet with the number `v` at byte 12.
abbrev verdict : ℕ → List ℕ → Result (List ℕ) InvalidEthernetFrame
verdict v p =
    if (v == 0x8100) && ltb (length p) 18
    then err invalid
    else if leb (length p - 4) ((if v == 0x8100 then 16 else 12) + 2)
    then err invalid
    else ok p

new-long :
    (p : List ℕ) (v : ℕ) → 14 ≤ length p → u16_be_at p 12 ≡ some v → new p ≡ some (verdict v p)
unfolding new
new-long p v h e = rw e (ground arith)

-- Whatever bytes arrive, validation answers.
pub new_total : (p : List ℕ) → (r : Result (List ℕ) InvalidEthernetFrame) × (new p ≡ some r)
new_total p = elim (Bool-cases (ltb (length p) 14)) [
  | inl short ↦ (err invalid, unfold new in rw short)
  | inr long ↦
      let (v, e) = u16_be_at-some p 12 (ground arith) in
      (verdict v p, new-long p v (ground arith) e)
]

-- An accepted frame is the packet as it came.
pub record IsReadable (p : List ℕ) : Type 0 where
  pub dest : List ℕ
  pub dest_read : (destination_mac p ≡ some dest) × (length dest ≡ 6)
  pub source : List ℕ
  pub source_read : (source_mac p ≡ some source) × (length source ≡ 6)
  pub dot1q : Option (List ℕ)
  pub dot1q_read : tag p ≡ some dot1q
  pub kind : ℕ
  pub kind_read : ether_type p ≡ some kind
  pub body : List ℕ
  pub body_read : (payload p ≡ some body) × (0 < length body) × (length body + 18 ≤ length p)
  pub check : ℕ
  pub check_read : crc p ≡ some check

new-short : (p : List ℕ) → length p < 14 → new p ≡ some (err invalid)
unfolding new
new-short p h = rw (lt→ltb (length p) 14 h)

-- What an accepted packet has: enough bytes past its tag.
record IsAccepted (p q : List ℕ) : Type 0 where
  pub word : ℕ
  pub word_read : u16_be_at p 12 ≡ some word
  pub long : (if word == 0x8100 then 16 else 12) + 2 < length p - 4
  pub same : q ≡ p

IsAccepted-at :
    (p q : List ℕ) (v : ℕ)
    → 14 ≤ length p
    → u16_be_at p 12 ≡ some v
    → new p ≡ some (ok q)
    → IsAccepted p q
IsAccepted-at p q v long read e = record {
  word = v;
  word_read = read;
  long = ground (arith, new-long p v long read);
  same = ground (arith, new-long p v long read);
}

accepted : (p q : List ℕ) → new p ≡ some (ok q) → IsAccepted p q
accepted p q e = elim (Bool-cases (ltb (length p) 14)) [
  | inl short ↦ absurd (ground (arith, new-short p (ltb→lt _ _ short)))
  | inr long ↦
      let (v, read) = u16_be_at-some p 12 (ground arith) in
      IsAccepted-at p q v (ground arith) read e
]

readable :
    (p : List ℕ) (v : ℕ)
    → u16_be_at p 12 ≡ some v
    → (if v == 0x8100 then 16 else 12) + 2 < length p - 4
    → IsReadable p
unfolding destination_mac source_mac tag ether_type payload crc
readable p v read long =
    let start : ℕ = if v == 0x8100 then 16 else 12 in
    let wide : 12 ≤ start = ground arith in
    let (dest, dest_e, dest_l) = slice-length p 0 6 (omega arith) (omega arith) in
    let (source, source_e, source_l) = slice-length p 6 12 (omega arith) (omega arith) in
    let (bytes, bytes_e, bytes_l) = slice-length p 12 16 (omega arith) (ground arith) in
    let (kind, kind_e) = u16_be_at-some p start (omega arith) in
    let (body, body_e, body_l) =
      slice-length p (start + 2) (length p - 4) (omega arith) (omega arith) in
    let (check, check_e) = u32_be_at-some p (length p - 4) (omega arith) in
    record {
      dest = dest;
      dest_read = (dest_e, dest_l);
      source = source;
      source_read = (source_e, source_l);
      dot1q = if v == 0x8100 then some bytes else none;
      dot1q_read = rw read (ground arith);
      kind = kind;
      kind_read = rw read kind_e;
      body = body;
      body_read = (rw read body_e, omega arith, ground arith);
      check = check;
      check_read = check_e;
    }

-- In an accepted packet every accessor returns: addresses of six bytes, a tag, a type, a payload
-- that is not empty and leaves room for header and checksum, and a checksum.
pub new-IsReadable : (p q : List ℕ) → new p ≡ some (ok q) → IsReadable q
new-IsReadable p q e = let a = accepted p q e in rw a.same (readable p a.word a.word_read a.long)
