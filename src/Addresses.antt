-- ===== src/Addresses.antt =====
-- `net.JoinHostPort` and `net.SplitHostPort`, which main.go uses on the addresses of its servers.
pub mod Ports
use mathlib.Core.Option
use nimo_os_gateway.Base.{
  ℕ, suc, ◌+◌, Bool, true, false, not, ◌&&◌, ◌||◌, Option, none, some, List, [], ◌∷◌, ◌++◌, Text,
  codes, Result, ok, err, last_index, take, drop, ◌==◌, if◌then◌else◌,
}

abbrev pub colon : ℕ
colon = b':'

abbrev pub opening : ℕ
opening = b'['

abbrev pub closing : ℕ
closing = b']'

-- `strings.IndexByte(s, c) >= 0`
unfoldable pub contains : ℕ → Text → Bool
contains c [] = false
contains c (x ∷ s) = x == c || contains c s

-- `strings.IndexByte(s, c)`; `none` is -1
unfoldable pub index_of : ℕ → Text → Option ℕ
index_of c [] = none
index_of c (x ∷ s) = if x == c then some 0 else Option.map suc (index_of c s)

-- A host with a colon or a percent sign stands in brackets.
unfoldable pub join_host_port : Text → Text → Text
unfolding contains
join_host_port host port =
    if contains colon host || contains b'%' host
    then opening ∷ (host ++ closing ∷ colon ∷ port)
    else host ++ colon ∷ port

abbrev pub HostPort : Type 0
HostPort = Text × Text

-- A host in brackets: the bracket must close right before the last colon.
in_brackets : Text → ℕ → Option ℕ → Result HostPort
unfolding contains
in_brackets hp i none = err (codes "missing ']' in address")
in_brackets hp i (some end) =
    if not (end + 1 == i)
    then err (codes "missing port in address")
    else if contains opening (drop 1 hp) || contains closing (drop (end + 1) hp)
    then err (codes "unexpected bracket in address")
    else ok (drop 1 (take end hp), drop (i + 1) hp)

bare : Text → ℕ → Result HostPort
unfolding contains
bare hp i =
    if contains colon (take i hp)
    then err (codes "too many colons in address")
    else if contains opening hp || contains closing hp
    then err (codes "unexpected bracket in address")
    else ok (take i hp, drop (i + 1) hp)

starts_bracket : Text → Bool
starts_bracket [] = false
starts_bracket (c ∷ s) = c == opening

split_at : Text → Option ℕ → Result HostPort
unfolding in_brackets bare starts_bracket index_of
split_at hp none = err (codes "missing port in address")
split_at hp (some i) =
    if starts_bracket hp then in_brackets hp i (index_of closing hp) else bare hp i

unfoldable pub split_host_port : Text → Result HostPort
unfolding split_at last_index
split_host_port hp = split_at hp (last_index colon hp)
