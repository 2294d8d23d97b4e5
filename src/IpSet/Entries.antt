-- ===== src/IpSet/Entries.antt =====
-- Entries and their texts.
use enn_policy.Prelude.{
  ℕ, ◌≡◌, refl, some, ◌∷◌, ◌++◌, Str, arith, ◌⊎◌, inl, inr, true, ℕ_discrete, Str-discrete,
}
use enn_policy.Types.{str_equal}
use enn_policy.Strings.Split.{Lacks, split-Lacks, split-append}
use enn_policy.IpSet.{
  Entry, empty_entry, type_hash_ip, type_hash_net, type_hash_ip_port, entry_to_string,
  string_to_entry, two_parts, address_and_port,
}

pub str_equal_self : (s : Str) → str_equal s s ≡ true
unfolding str_equal
str_equal_self s = ground arith

-- A member of a set of addresses or of networks is read as an entry of that type, whose text is
-- the member again.
pub entry_to_string-string_to_entry :
    (type member : Str)
    → (type ≡ type_hash_ip) ⊎ (type ≡ type_hash_net)
    → (e : Entry) × (string_to_entry type member ≡ some e)
      × (e.type ≡ type)
      × (entry_to_string e ≡ some member)
unfolding string_to_entry entry_to_string Str-discrete ℕ_discrete
entry_to_string-string_to_entry type member (inl h) =
    (record (empty_entry type) { ip = member }, rw h, refl, rw h)
entry_to_string-string_to_entry type member (inr h) =
    (record (empty_entry type) { net = member }, rw h, refl, rw h)

two_parts-append :
    (sep : ℕ) (a b : Str) → Lacks sep a → Lacks sep b → two_parts sep (a ++ (sep ∷ b)) ≡ some (a, b)
unfolding two_parts
two_parts-append sep a b ha hb = rw (split-append sep a b ha, split-Lacks sep b hb, two_parts)

address_and_port-append :
    (ip protocol port : Str)
    → Lacks b',' ip
    → Lacks b',' (protocol ++ (b':' ∷ port))
    → Lacks b':' protocol
    → Lacks b':' port
    → address_and_port (ip ++ (b',' ∷ (protocol ++ (b':' ∷ port)))) ≡ some (ip, port)
unfolding address_and_port
address_and_port-append ip protocol port h1 h2 h3 h4 =
    rw (two_parts-append b',' ip (protocol ++ (b':' ∷ port)) h1 h2, address_and_port)
      (rw (two_parts-append b':' protocol port h3 h4))

-- A member `ip,protocol:port` of a set of addresses with ports is read without its protocol: the
-- text of the entry is `ip,port`, whatever the protocol was.
pub entry_to_string-string_to_entry_port :
    (ip protocol port : Str)
    → Lacks b',' ip
    → Lacks b',' (protocol ++ (b':' ∷ port))
    → Lacks b':' protocol
    → Lacks b':' port
    → (e : Entry) × (string_to_entry type_hash_ip_port (ip ++ (b',' ∷ (protocol ++ (b':' ∷ port))))
        ≡ some e)
      × (entry_to_string e ≡ some (ip ++ (b',' ∷ port)))
unfolding string_to_entry entry_to_string Str-discrete ℕ_discrete
entry_to_string-string_to_entry_port ip protocol port h1 h2 h3 h4 = (
  record (empty_entry type_hash_ip_port) { ip = ip; port = port },
  rw (address_and_port-append ip protocol port h1 h2 h3 h4),
  refl,
)
