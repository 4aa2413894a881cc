-- ===== src/Agent/HostsFile.antt =====
-- internal/agent/hosts.go: the managed block of /etc/hosts. The file system is an argument: what
-- reading, writing and renaming give.
pub mod Search
pub mod Block
use home_kai.Base.{
  ℕ, zero, suc, ◌+◌, ◌-◌, Text, codes, text_eq, has_suffix, Bool, true, false, not, ◌&&◌, Option,
  none, some, List, [], ◌∷◌, ◌++◌, gather, length, take, drop, is_empty, ◌==◌, if◌then◌else◌,
}
use home_kai.Model.{HostEntry}

abbrev pub newline : Text
newline = 10 ∷ []

abbrev pub hosts_begin : Text
hosts_begin = codes "# kai overlay begin — managed by kai-agent, do not edit"

abbrev pub hosts_end : Text
hosts_end = codes "# kai overlay end"

-- strings.HasPrefix
unfoldable pub has_prefix : Text → Text → Bool
has_prefix s [] = true
has_prefix [] (x ∷ p) = false
has_prefix (c ∷ s) (x ∷ p) = c == x && has_prefix s p

abbrev pub one_more : Option ℕ → Option ℕ
one_more none = none
one_more (some n) = some (suc n)

-- strings.Index
unfoldable pub index : Text → Text → Option ℕ
index [] p = if has_prefix [] p then some 0 else none
index (c ∷ s) p = let rest = index s p in if has_prefix (c ∷ s) p then some 0 else one_more rest

-- strings.TrimPrefix
unfoldable pub trim_prefix : Text → Text → Text
trim_prefix s p = if has_prefix s p then drop (length p) s else s

abbrev pub spaces : ℕ → Text
spaces zero = []
spaces (suc n) = b' ' ∷ spaces n

-- the format "%-15s %s\n"
abbrev pub entry_line : HostEntry → Text
entry_line e = e.ip ++ (spaces (15 - length e.ip) ++ (b' ' ∷ (e.name ++ newline)))

unfoldable pub render_hosts_block : List HostEntry → Text
render_hosts_block entries =
    if is_empty entries
    then []
    else hosts_begin ++ (newline ++ (gather entry_line entries ++ (hosts_end ++ newline)))

abbrev pub cut_block : Text → Option ℕ → Option ℕ → Text
cut_block s none last = s
cut_block s (some start) none = take start s
cut_block s (some start) (some last) =
    take start s ++ trim_prefix (drop (last + length hosts_end) s) newline

unfoldable pub strip_managed_block : Text → Text
strip_managed_block s = cut_block s (index s hosts_begin) (index s hosts_end)

-- a newline where the last line has none
unfoldable pub end_line : Text → Text
end_line s = if not (is_empty s) && not (has_suffix s newline) then s ++ newline else s

-- the text that `updateHostsFile` writes
unfoldable pub next_hosts : List HostEntry → Text → Text
next_hosts entries cur =
    let kept = strip_managed_block cur in
    let block = render_hosts_block entries in
    if is_empty block then kept else end_line kept ++ block

-- The file and the temporary file beside it; none where there is no file.
pub record HostsFiles : Type 0 where
  pub hosts : Option Text
  pub tmp : Option Text

-- `write` tells whether the temporary file was written, and what it holds then; `renamed` and
-- `removed`, whether those calls succeed.
module _ (write : Text → Bool × Option Text) (renamed removed : Bool) where
  abbrev rename_tmp : Option Text → Option Text → Bool × HostsFiles
  rename_tmp hosts tmp =
      if renamed
      then (true, record { hosts = tmp; tmp = none })
      else (false, record { hosts = hosts; tmp = if removed then none else tmp })

  abbrev replace_hosts : Text → Text → Option Text → Bool × HostsFiles
  replace_hosts cur next tmp =
      let wrote = write next in
      if text_eq next cur
      then (true, record { hosts = some cur; tmp = tmp })
      else if wrote.0
      then rename_tmp (some cur) wrote.1
      else (false, record { hosts = some cur; tmp = wrote.1 })

  -- Does the update succeed, and what stands in the files?
  unfoldable pub update_hosts_file : List HostEntry → HostsFiles → Bool × HostsFiles
  update_hosts_file entries f = elim f.hosts [
    | none ↦ (false, f)
    | some cur ↦ replace_hosts cur (next_hosts entries cur) f.tmp
  ]

  unfoldable pub sync_hosts : Bool → List HostEntry → HostsFiles → HostsFiles
  sync_hosts no_hosts entries f = if no_hosts then f else (update_hosts_file entries f).1
