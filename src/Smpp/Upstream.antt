-- ===== src/Smpp/Upstream.antt =====
-- internal/smpp/client.go and manager.go: the configuration of a client, made from a row of the
-- upstreams (`SMPPUpstream` of internal/db/repository.go), and the comparison of the two.
use vectorcore_mmsc.Base.{
  ℕ, ◌*◌, List, [], ◌∷◌, sym, Option, none, some, Bool, true, false, ◌==◌, all_of, all_of→AllTrue,
  ==_iff, if◌then◌else◌, ◌≡◌, refl, arith, ==_self,
}
use vectorcore_mmsc.Base.Int.{ℤ, pos, negsuc, int_eq, byte_of, int64_of, int_eq_self, int_eq→eq}
use vectorcore_mmsc.Base.Text.{bytes_eq, bytes_eq→eq, bytes_eq_self}

-- The type `SMPPUpstream`; a nil pointer is `none`.
pub record Upstream : Type 0 where
  pub name : List ℕ
  pub host : List ℕ
  pub port : ℤ
  pub system_id : List ℕ
  pub password : List ℕ
  pub system_type : List ℕ
  pub bind_mode : List ℕ
  pub enquire_link : ℤ
  pub reconnect_wait : ℤ
  pub registered_delivery : ℤ
  pub source_addr_ton : Option ℤ
  pub source_addr_npi : Option ℤ
  pub dest_addr_ton : Option ℤ
  pub dest_addr_npi : Option ℤ
  pub active : Bool

-- The type `Config`; a duration is a number of nanoseconds.
pub record Config : Type 0 where
  pub host : List ℕ
  pub port : ℤ
  pub system_id : List ℕ
  pub password : List ℕ
  pub system_type : List ℕ
  pub bind_mode : List ℕ
  pub reconnect_wait : ℤ
  pub enquire_link : ℤ
  pub registered_delivery : ℕ
  pub source_addr_ton : ℕ
  pub source_addr_npi : ℕ
  pub source_addr_ton_set : Bool
  pub source_addr_npi_set : Bool
  pub dest_addr_ton : ℕ
  pub dest_addr_npi : ℕ
  pub dest_addr_ton_set : Bool
  pub dest_addr_npi_set : Bool

abbrev pub second : ℕ
second = 1000000000

-- A number of seconds, where a negative one counts as none.
unfoldable pub duration_seconds : ℤ → ℤ
duration_seconds (pos n) = if n == 0 then pos 0 else int64_of (n * second)
duration_seconds (negsuc n) = pos 0

abbrev pub or_default : ℤ → Option ℤ → ℤ
or_default d none = d
or_default d (some x) = x

abbrev pub is_set : Option ℤ → Bool
is_set none = false
is_set (some x) = true

-- The configuration that `NewClientFromUpstream` hands to `NewClient`.
unfoldable pub config_of : Upstream → Config
config_of u = record {
  host = u.host;
  port = u.port;
  system_id = u.system_id;
  password = u.password;
  system_type = u.system_type;
  bind_mode = u.bind_mode;
  reconnect_wait = duration_seconds u.reconnect_wait;
  enquire_link = duration_seconds u.enquire_link;
  registered_delivery = byte_of u.registered_delivery;
  source_addr_ton = byte_of (or_default (pos 0) u.source_addr_ton);
  source_addr_npi = byte_of (or_default (pos 0) u.source_addr_npi);
  source_addr_ton_set = is_set u.source_addr_ton;
  source_addr_npi_set = is_set u.source_addr_npi;
  dest_addr_ton = byte_of (or_default (pos 1) u.dest_addr_ton);
  dest_addr_npi = byte_of (or_default (pos 1) u.dest_addr_npi);
  dest_addr_ton_set = is_set u.dest_addr_ton;
  dest_addr_npi_set = is_set u.dest_addr_npi;
}

abbrev pub same_bool : Bool → Bool → Bool
same_bool true b = b
same_bool false true = false
same_bool false false = true

-- The comparisons of `sameRuntimeConfig`, in their order.
abbrev pub config_tests : Config → Upstream → List Bool
config_tests c u =
    bytes_eq c.host u.host
    ∷ int_eq c.port u.port
    ∷ bytes_eq c.system_id u.system_id
    ∷ bytes_eq c.password u.password
    ∷ bytes_eq c.system_type u.system_type
    ∷ bytes_eq c.bind_mode u.bind_mode
    ∷ (c.registered_delivery == byte_of u.registered_delivery)
    ∷ (c.source_addr_ton == byte_of (or_default (pos 0) u.source_addr_ton))
    ∷ (c.source_addr_npi == byte_of (or_default (pos 0) u.source_addr_npi))
    ∷ same_bool c.source_addr_ton_set (is_set u.source_addr_ton)
    ∷ same_bool c.source_addr_npi_set (is_set u.source_addr_npi)
    ∷ (c.dest_addr_ton == byte_of (or_default (pos 1) u.dest_addr_ton))
    ∷ (c.dest_addr_npi == byte_of (or_default (pos 1) u.dest_addr_npi))
    ∷ int_eq c.reconnect_wait (duration_seconds u.reconnect_wait)
    ∷ int_eq c.enquire_link (duration_seconds u.enquire_link)
    ∷ []

unfoldable pub same_runtime_config : Config → Upstream → Bool
same_runtime_config c u = all_of (config_tests c u)

-- The only fields in which a configuration that passes the comparison may differ from the one that
-- would be made of the row.
abbrev pub with_dest_set : Bool → Bool → Config → Config
with_dest_set ton npi c = record c { dest_addr_ton_set = ton; dest_addr_npi_set = npi }

same_bool→eq : (a b : Bool) → same_bool a b ≡ true → a ≡ b
same_bool→eq true b h = sym h
same_bool→eq false true h = cc
same_bool→eq false false h = refl

same_bool_self : (a : Bool) → same_bool a a ≡ true
same_bool_self true = refl
same_bool_self false = refl

-- The configuration that is made of a row is the same as the row.
pub same_runtime_config-config_of : (u : Upstream) → same_runtime_config (config_of u) u ≡ true
unfolding same_runtime_config config_of
same_runtime_config-config_of u = simp (bytes_eq_self, int_eq_self, ==_self, same_bool_self)

-- What the comparison has found, field by field.
abbrev pub Agree : Config → Upstream → Type 0
Agree c u =
    (c.host ≡ u.host)
    × (c.port ≡ u.port)
    × (c.system_id ≡ u.system_id)
    × (c.password ≡ u.password)
    × (c.system_type ≡ u.system_type)
    × (c.bind_mode ≡ u.bind_mode)
    × (c.registered_delivery ≡ byte_of u.registered_delivery)
    × (c.source_addr_ton ≡ byte_of (or_default (pos 0) u.source_addr_ton))
    × (c.source_addr_npi ≡ byte_of (or_default (pos 0) u.source_addr_npi))
    × (c.source_addr_ton_set ≡ is_set u.source_addr_ton)
    × (c.source_addr_npi_set ≡ is_set u.source_addr_npi)
    × (c.dest_addr_ton ≡ byte_of (or_default (pos 1) u.dest_addr_ton))
    × (c.dest_addr_npi ≡ byte_of (or_default (pos 1) u.dest_addr_npi))
    × (c.reconnect_wait ≡ duration_seconds u.reconnect_wait)
    × (c.enquire_link ≡ duration_seconds u.enquire_link)

pub same_runtime_config-Agree :
    (c : Config) (u : Upstream) → same_runtime_config c u ≡ true → Agree c u
unfolding same_runtime_config
same_runtime_config-Agree c u h =
    let (
      a1,
      (a2, (a3, (a4, (a5, (a6, (a7, (a8, (a9, (a10, (a11, (a12, (a13, (a14, (a15, end)))))))))))))),
    ) =
      all_of→AllTrue (config_tests c u) h in
    (
      bytes_eq→eq _ _ a1,
      int_eq→eq _ _ a2,
      bytes_eq→eq _ _ a3,
      bytes_eq→eq _ _ a4,
      bytes_eq→eq _ _ a5,
      bytes_eq→eq _ _ a6,
      (==_iff _ _).0 a7,
      (==_iff _ _).0 a8,
      (==_iff _ _).0 a9,
      same_bool→eq _ _ a10,
      same_bool→eq _ _ a11,
      (==_iff _ _).0 a12,
      (==_iff _ _).0 a13,
      int_eq→eq _ _ a14,
      int_eq→eq _ _ a15,
    )

pub Agree-same : (c : Config) (u : Upstream) → Agree c u → same_runtime_config c u ≡ true
unfolding same_runtime_config
Agree-same c u (a1, a2, a3, a4, a5, a6, a7, a8, a9, a10, a11, a12, a13, a14, a15) =
    rw (a1, a2, a3, a4, a5, a6, a7, a8, a9, a10, a11, a12, a13, a14, a15)
      (simp (bytes_eq_self, int_eq_self, ==_self, same_bool_self))

-- A configuration that is the same as a row is the one made of the row, but for the two marks.
pub same_runtime_config→eq :
    (c : Config) (u : Upstream)
    → same_runtime_config c u ≡ true
    → c ≡ with_dest_set c.dest_addr_ton_set c.dest_addr_npi_set (config_of u)
unfolding config_of
same_runtime_config→eq c u h = ground (arith, same_runtime_config-Agree c u h)
