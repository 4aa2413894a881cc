-- ===== src/Agent/Wgdev/Uapi/Whole.antt =====
-- parseUAPIPeers of internal/agent/wgdev/wgdev_darwin.go on the whole text that wireguard-go writes.
use home_kai.Base.{
  ℕ, Text, Bool, true, false, not, ◌&&◌, some, ◌≡◌, refl, ap, ◌∙◌, List, [], ◌∷◌, ◌++◌, all, any,
  map, gather, length, ltb, ◌==◌, arith,
}
use home_kai.Text.{split_on}
use home_kai.Agent.Wgdev.Uapi.{too_long, drop_cr, scan_lines, read_lines, parse_uapi_peers}
use home_kai.Agent.Wgdev.Uapi.Reading.{
  Field, Block, is_plain, is_block, line_of, block_lines, status_of_block, read_lines_exact,
}

-- A line below 64 KB without a newline or a carriage return.
abbrev pub is_line : Text → Bool
is_line l = not (any (λ c. c == 10) l) && not (any (λ c. c == 13) l) && ltb (length l) 65536

abbrev pub text_of : List Text → Text
text_of [] = []
text_of (l ∷ ls) = l ++ 10 ∷ text_of ls

split_line :
    (l s : Text) → any (λ c. c == 10) l ≡ false → split_on 10 (l ++ 10 ∷ s) ≡ l ∷ split_on 10 s
unfolding split_on
split_line [] s h = refl
split_line (c ∷ l) s h = ground (arith, split_line l s)

drop_cr_none : (l : Text) → any (λ c. c == 13) l ≡ false → drop_cr l ≡ l
drop_cr_none [] h = refl
drop_cr_none (c ∷ []) h = ground arith
drop_cr_none (c ∷ d ∷ s) h = ground (arith, drop_cr_none (d ∷ s))

-- The split text ends in an empty part.
split_text : (ls : List Text) → all is_line ls ≡ true → split_on 10 (text_of ls) ≡ ls ++ [] ∷ []
unfolding split_on
split_text [] h = refl
split_text (l ∷ ls) h = ground (arith, split_line l (text_of ls), split_text ls)

scan_text : (ls : List Text) → all is_line ls ≡ true → scan_lines (ls ++ [] ∷ []) ≡ ls
unfolding scan_lines
scan_text [] h = refl
scan_text (l ∷ []) h = ground (arith, drop_cr_none l)
scan_text (l ∷ m ∷ ls) h = ground (arith, drop_cr_none l, scan_text (m ∷ ls))

none_too_long : (ls : List Text) → all is_line ls ≡ true → any too_long (ls ++ [] ∷ []) ≡ false
none_too_long [] h = refl
none_too_long (l ∷ ls) h = ground (arith, none_too_long ls)

-- From a text of lines below 64 KB without carriage returns, first those of the device and then a
-- block for each peer with its key of 32 bytes in front, parseUAPIPeers reads one status for each
-- block in order, with the value of the last line of each name in the block; unknown lines are left
-- out.
pub parse_uapi_peers_exact :
    (encode : List ℕ → Text) (head : List Field) (bs : List Block)
    → all is_plain head ≡ true
    → all is_block bs ≡ true
    → all is_line (map line_of head ++ gather block_lines bs) ≡ true
    → parse_uapi_peers encode (text_of (map line_of head ++ gather block_lines bs))
      ≡ some (map (status_of_block encode) bs)
unfolding parse_uapi_peers
parse_uapi_peers_exact encode head bs h k l =
    let ls = map line_of head ++ gather block_lines bs in
    rw (split_text ls l, parse_uapi_peers)
      (rw (none_too_long ls l)
        (ap (read_lines encode) (scan_text ls l) ∙ read_lines_exact encode head bs h k))
