-- ===== src/Text/Tests.antt =====
-- The text functions at concrete inputs.
use bananagine.Prelude.{pos, negsuc, true, false, none, some, ◌≡◌, refl}
use bananagine.Text.{trim_space}
use bananagine.Text.Scan.{scan_range}
use bananagine.Text.Decimal.{decimal_int}
use bananagine.Text.Strings.{contains, to_lower, replace_all}
use bananagine.Text.Identity.{valid_fleet_identity}

trims : trim_space "  a b \n" ≡ "a b"
unfolding trim_space
trims = refl

scans : scan_range "25565-25599" ≡ some (pos 25565, pos 25599)
unfolding scan_range
scans = refl

scans_signs : scan_range " -5-+7x" ≡ some (negsuc 4, pos 7)
unfolding scan_range
scans_signs = refl

scans_none : scan_range "25565" ≡ none
unfolding scan_range
scans_none = refl

prints : decimal_int (pos 25565) ≡ "25565"
unfolding decimal_int
prints = refl

lowers : contains (to_lower "No such Container") "no such container" ≡ true
unfolding contains to_lower
lowers = refl

replaces : replace_all "/w/{{SERVER_ID}}/d" "{{SERVER_ID}}" "mc-1" ≡ "/w/mc-1/d"
unfolding replace_all
replaces = refl

admits : valid_fleet_identity "mc-7f613" ≡ true
unfolding valid_fleet_identity
admits = refl

rejects_traversal : valid_fleet_identity "a..b" ≡ false
unfolding valid_fleet_identity
rejects_traversal = refl
