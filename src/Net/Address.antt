-- ===== src/Net/Address.antt =====
-- The byte arrays of fixed length that frames hold: `IpAddr` is `[u8; 4]` and a MAC is `[u8; 6]`
-- (src/main.rs).
use stream_os.Base.{ℕ, List, [], ◌∷◌, Option, none, some, ℕ_discrete}

pub record IpAddr : Type 0 where
  pub a0 : ℕ
  pub a1 : ℕ
  pub a2 : ℕ
  pub a3 : ℕ

pub record MacAddr : Type 0 where
  pub m0 : ℕ
  pub m1 : ℕ
  pub m2 : ℕ
  pub m3 : ℕ
  pub m4 : ℕ
  pub m5 : ℕ

unfoldable pub IpAddr-discrete : Discrete IpAddr
unfolding ℕ_discrete
IpAddr-discrete = hlevel ℕ_discrete

abbrev pub ip_bytes : IpAddr → List ℕ
ip_bytes ip = ip.a0 ∷ ip.a1 ∷ ip.a2 ∷ ip.a3 ∷ []

abbrev pub mac_bytes : MacAddr → List ℕ
mac_bytes m = m.m0 ∷ m.m1 ∷ m.m2 ∷ m.m3 ∷ m.m4 ∷ m.m5 ∷ []

-- `try_into` from a slice, whose `expect` is the panic `none`.
abbrev pub ip_from : List ℕ → Option IpAddr
ip_from (a ∷ b ∷ c ∷ d ∷ []) = some (record { a0 = a; a1 = b; a2 = c; a3 = d })
ip_from _ = none

abbrev pub mac_from : List ℕ → Option MacAddr
mac_from (a ∷ b ∷ c ∷ d ∷ e ∷ f ∷ []) =
    some (record { m0 = a; m1 = b; m2 = c; m3 = d; m4 = e; m5 = f })
mac_from _ = none
