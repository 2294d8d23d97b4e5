-- ===== src/Tests/Program.antt =====
-- The program's interface over a runner with sets of addresses, and over one with sets of networks.
use enn_policy.Prelude.{◌≡◌, refl, some, Str, str, arith, Str-discrete, ℕ_discrete}
use enn_policy.Strings.{ℤ, pos}
use enn_policy.IpSet.{type_hash_ip, type_hash_net, entry_to_string, string_to_entry}
use enn_policy.IpSet.Reading.{split_colon}
use enn_policy.IpSet.Reading.Header.{IsWhole}
use enn_policy.SetSync.{SetInterface, address_entry, net_entry}
use enn_policy.SetSync.Laws.{KernelLaws}
use enn_policy.SetSync.Kernel.{Kernel}
use enn_policy.SetSync.Program.{enn_ip_set, enn_laws}
use enn_policy.SetSync.Program.Runner.{ipset_runner, runner_laws, IsText}

abbrev pub no_number : Str → ℤ
no_number s = pos 0

abbrev pub program_sets : SetInterface Kernel
program_sets = enn_ip_set no_number (ipset_runner type_hash_ip)

abbrev pub program_nets : SetInterface Kernel
program_nets = enn_ip_set no_number (ipset_runner type_hash_net)

pub address_reads : (m : Str) → string_to_entry type_hash_ip m ≡ some (address_entry m)
unfolding string_to_entry Str-discrete ℕ_discrete
address_reads m = refl

pub address_writes : (m : Str) → entry_to_string (address_entry m) ≡ some m
unfolding entry_to_string Str-discrete ℕ_discrete
address_writes m = refl

pub net_reads : (m : Str) → string_to_entry type_hash_net m ≡ some (net_entry m)
unfolding string_to_entry Str-discrete ℕ_discrete
net_reads m = refl

pub net_writes : (m : Str) → entry_to_string (net_entry m) ≡ some m
unfolding entry_to_string Str-discrete ℕ_discrete
net_writes m = refl

pub hash_ip-IsWhole : IsWhole type_hash_ip
unfolding split_colon
hash_ip-IsWhole = refl

pub hash_net-IsWhole : IsWhole type_hash_net
unfolding split_colon
hash_net-IsWhole = refl

unfoldable pub program_laws : KernelLaws program_sets address_entry
unfolding enn_laws runner_laws
program_laws =
    enn_laws no_number (ipset_runner type_hash_ip) address_entry address_reads address_writes
      (runner_laws type_hash_ip (omega arith) hash_ip-IsWhole)

unfoldable pub program_net_laws : KernelLaws program_nets net_entry
unfolding enn_laws runner_laws
program_net_laws =
    enn_laws no_number (ipset_runner type_hash_net) net_entry net_reads net_writes
      (runner_laws type_hash_net (omega arith) hash_net-IsWhole)

pub first-IsText : IsText (str "10.0.0.1")
first-IsText = (omega arith, λ e. cc)

pub second-IsText : IsText (str "10.0.0.2")
second-IsText = (omega arith, λ e. cc)

pub stale-IsText : IsText (str "10.0.0.9")
stale-IsText = (omega arith, λ e. cc)
