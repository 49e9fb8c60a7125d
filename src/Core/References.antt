-- ===== src/Core/References.antt =====
-- The printed references of modules/core/reference-number.singleton.ts. `toUpperCase` on the host's
-- name is a parameter; the date is the number that its eight digits spell.
pub mod Digits
pub mod Distinct
use vaultline.Prelude.{
  ℕ, zero, suc, ◌+◌, ◌-◌, ◌/◌, ◌%◌, List, [], ◌∷◌, ◌++◌, map, Bool, ltb, leb, ◌&&◌, ◌||◌,
  if◌then◌else◌, Option, none, some, length, drop,
}
use vaultline.Common.Texts.{Text, text}
use vaultline.Entities.{Prefix, txn, dep, wdl, trf, rev, pay, Reference}
use vaultline.Core.References.Digits.{to_string, pad_start}

abbrev is_tag_character : ℕ → Bool
is_tag_character c = (leb 65 c && leb c 90) || (leb 48 c && leb c 57)

-- `.replace(/[^A-Z0-9]/g, 'X')`
abbrev pub plain_character : ℕ → ℕ
plain_character c = if is_tag_character c then c else 88

abbrev host_or_local : Option Text → Text
host_or_local none = text "local"
host_or_local (some host) = host

-- The constructor: the tag is the end of the host's name.
unfoldable pub node_tag : (to_upper_case : Text → Text) → Option Text → Text
node_tag to_upper_case hostname =
    let host = host_or_local hostname in
    map plain_character (to_upper_case (drop (length host - 4) host))

abbrev pub prefix_text : Prefix → Text
prefix_text txn = text "TXN"
prefix_text dep = text "DEP"
prefix_text wdl = text "WDL"
prefix_text trf = text "TRF"
prefix_text rev = text "REV"
prefix_text pay = text "PAY"

-- The text that `next` returns.
unfoldable pub reference_text : (node_tag : Text) → Reference → Text
unfolding to_string pad_start
reference_text node_tag r =
    prefix_text r.prefix
    ++ (text "-"
        ++ (pad_start 8 (to_string 10 r.date)
            ++ (text "-"
                ++ (node_tag
                    ++ (text "-"
                        ++ (pad_start 6 (to_string 10 r.sequence)
                            ++ pad_start 2 (to_string 36 r.random)))))))
