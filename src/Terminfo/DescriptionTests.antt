-- ===== src/Terminfo/DescriptionTests.antt =====
-- Compiled descriptions of lib/libterminfo at small inputs.
use netbsd_curses.Base.{
  ℕ, ◌+◌, ◌-◌, ◌*◌, ◌<◌, ◌≡◌, refl, subst, inr, if◌then◌else◌, if_cases, true, false, Option, none,
  some, List, [], ◌∷◌, ◌++◌, get_or, arith,
}
use netbsd_curses.Base.Int.{pos, negsuc}
use netbsd_curses.Terminfo.Bytes.{gives, fails, ◌>>=◌, unsigned, byte, o1, v3}
use netbsd_curses.Terminfo.Bytes.RoundTrip.{u16}
use netbsd_curses.Terminfo.Bytes.Safe.{Safe}
use netbsd_curses.Terminfo.Tbuf.{empty, find_cap, is_some}
use netbsd_curses.Terminfo.Tbuf.Writes.{appended, granted}
use netbsd_curses.Terminfo.Tbuf.Entries.{
  flag, num, str, Cap, has, Holds, one_more, none_left, find_cap-has,
}
use netbsd_curses.Terminfo.Compile.{Host, Flags, Tic, same, version, append_extra, value_size}
use netbsd_curses.Terminfo.Compile.Caps.{cancelled}
use netbsd_curses.Terminfo.Compile.Description.{compile}
use netbsd_curses.Terminfo.Compile.Describes.{Extra, extra_bytes, and_extra, no_extra, HoldsExtra}
use netbsd_curses.Terminfo.Compile.Extras.{num_args, extra_of, append_extra-appended}
use netbsd_curses.Terminfo.Compile.Flatten.{terminated, flat_size, flatten}
use netbsd_curses.Terminfo.Compile.Keeps.{IsHost, IsTic, Distinct, once, none_twice}
use netbsd_curses.Terminfo.Compile.Losses.{
  cancelled-read, promoted_alias-first, not_here, none_here,
}
use netbsd_curses.Terminfo.Compile.Promote.{promote, promoted_alias}
use netbsd_curses.Terminfo.Compile.Whole.{compile-Safe}
use netbsd_curses.Terminfo.Compile.Widens.{SameNums}
use netbsd_curses.Terminfo.Compile.Names.{names, new_name, no_name}
use netbsd_curses.Terminfo.Compile.Promotes.{promote-gives}
use netbsd_curses.Terminfo.Read.{Sizes, Terminal, absent, readterm}
use netbsd_curses.Terminfo.Read.Elements.{
  value_of, terminal_of, flatten-readterm, seen_flag, seen_num, seen_str, readterm-elements,
}
use netbsd_curses.Terminfo.Read.Flat.{IsFlatTic}
use netbsd_curses.Terminfo.Read.Records.{IsNamed}
use netbsd_curses.Terminfo.Read.Values.{and_below, end_below}

decimal : ℕ → List ℕ → ℕ
decimal n [] = n
decimal n (c ∷ s) = decimal (n * 10 + (c - b'0')) s

named : List ℕ → ℕ → List ℕ → Option ℕ
named name i s = if same s name then some i else none

abbrev am : List ℕ
am = b'a' ∷ b'm' ∷ []

abbrev cols : List ℕ
cols = b'c' ∷ b'o' ∷ []

abbrev bel : List ℕ
bel = b'b' ∷ b'l' ∷ []

-- Memory without end; every kind of capability has one name.
abbrev sample_host : Host
sample_host = record {
  grants = λ l. true;
  strtol = λ s. (pos (decimal 0 s), []);
  flag_index = named am 1;
  num_index = named cols 0;
  str_index = named bel 1;
}

abbrev sample_sizes : Sizes
sample_sizes = record { flags = 2; nums = 2; strs = 2 }

abbrev all_flags : Flags
all_flags = record {
  description = true;
  alias = true;
  comment = true;
  extra = true;
  compat_v1 = false;
}

named_below : (name s : List ℕ) (i j : ℕ) → named name i s ≡ some j → i < 2 → j < 2
unfolding named
named_below name s i j =
    if_cases (λ (o : Option ℕ). o ≡ some j → i < 2 → j < 2) (same s name) (some i) none
      (λ _ e l. let f : i ≡ j = cc in subst (λ k. k < 2) f l) (λ _ e l. cc)

sample_host-IsHost : IsHost sample_host sample_sizes
sample_host-IsHost = record {
  flag_below = λ s i e. named_below am s 1 i e (omega arith);
  num_below = λ s i e. named_below cols s 0 i e (omega arith);
  str_below = λ s i e. named_below bel s 1 i e (omega arith);
  flags_short = omega arith;
  nums_short = omega arith;
  strs_short = omega arith;
}

-- vt|v|d,am,co#80,bl=^G,zz,
abbrev sample_text : List ℕ
sample_text =
    b'v' ∷ b't' ∷ b'|' ∷ b'v' ∷ b'|' ∷ b'd' ∷ b',' ∷ b'a' ∷ b'm' ∷ b',' ∷ b'c' ∷ b'o' ∷ b'#' ∷ b'8'
    ∷ b'0' ∷ b',' ∷ b'b' ∷ b'l' ∷ b'=' ∷ b'^' ∷ b'G' ∷ b',' ∷ b'z' ∷ b'z' ∷ b',' ∷ []

compile-Safe_example :
    Safe (λ t. IsTic sample_host sample_sizes t) (compile sample_host all_flags sample_text)
compile-Safe_example =
    compile-Safe sample_host sample_sizes sample_host-IsHost all_flags sample_text (inr (λ l. refl))

-- What it compiles to.
abbrev sample_tic : Tic
sample_tic = record {
  name = b'v' ∷ b't' ∷ [];
  alias = some (b'v' ∷ []);
  desc = some (b'd' ∷ []);
  rtype = o1;
  flags = record { text = 1 ∷ 0 ∷ 1 ∷ []; size = 3; entries = 1 };
  nums = record { text = 0 ∷ 0 ∷ 80 ∷ 0 ∷ []; size = 4; entries = 1 };
  strs = record { text = 1 ∷ 0 ∷ 2 ∷ 0 ∷ 7 ∷ 0 ∷ []; size = 6; entries = 1 };
  extras = record { text = 3 ∷ 0 ∷ b'z' ∷ b'z' ∷ 0 ∷ b'f' ∷ 1 ∷ []; size = 7; entries = 1 };
}

am_flag : Holds o1 b'f' sample_tic.flags (record { ind = 1; value = flag (pos 1) } ∷ [])
unfolding u16 byte unsigned
am_flag = record {
  bytes = refl;
  count = refl;
  fits = one_more _ [] refl (omega arith) (omega arith) none_left;
}

co_num : Holds o1 b'n' sample_tic.nums (record { ind = 0; value = num (pos 80) } ∷ [])
unfolding u16 byte unsigned
co_num = record {
  bytes = refl;
  count = refl;
  fits = one_more _ [] refl (omega arith) (omega arith) none_left;
}

bl_str : Holds o1 b's' sample_tic.strs (record { ind = 1; value = str (7 ∷ 0 ∷ []) } ∷ [])
unfolding u16 byte unsigned
bl_str = record {
  bytes = refl;
  count = refl;
  fits = one_more _ [] refl (omega arith) (omega arith) none_left;
}

zz_extra :
    HoldsExtra o1 sample_tic.extras
      (record { id = b'z' ∷ b'z' ∷ 0 ∷ []; value = flag (pos 1) } ∷ [])
unfolding u16 byte unsigned
zz_extra = record {
  bytes = refl;
  count = refl;
  fits = and_extra _ [] (b'z' ∷ b'z' ∷ []) refl (omega arith) (omega arith) no_extra;
}

alone : (c : Cap) → Distinct (c ∷ [])
alone c = once c [] refl none_twice

abbrev sample_tic-IsTic : IsTic sample_host sample_sizes sample_tic
sample_tic-IsTic = record {
  alias_room = inr (λ l. refl);
  flags = (_, am_flag, and_below _ [] (omega arith) end_below, alone _);
  nums = (_, co_num, and_below _ [] (omega arith) end_below, alone _);
  strs = (_, bl_str, and_below _ [] (omega arith) end_below, alone _);
  extras = (_, zz_extra);
}

small : IsFlatTic sample_tic
small = record {
  flags_fit = record { text_fits = omega arith; entries_fit = omega arith };
  nums_fit = record { text_fits = omega arith; entries_fit = omega arith };
  strs_fit = record { text_fits = omega arith; entries_fit = omega arith };
  extras_fit = record { text_fits = omega arith; entries_fit = omega arith };
}

short_names : IsNamed sample_tic
unfolding terminated
short_names = record { name_fits = omega arith; alias_fits = omega arith; desc_fits = omega arith }

flatten-readterm_example :
    (flatten sample_host sample_tic >>= λ bytes. readterm sample_sizes false bytes) ≡ (
      if sample_host.grants (flat_size sample_tic)
      then gives (terminal_of sample_host sample_sizes false sample_tic sample_tic-IsTic)
      else fails)
flatten-readterm_example =
    flatten-readterm sample_host sample_sizes false sample_tic sample_tic-IsTic small short_names

readterm-elements_example :
    (t : Terminal) × ((flatten sample_host sample_tic >>= λ bytes.
    readterm sample_sizes false bytes)
      ≡ gives t)
    × (get_or t.flags 1 (pos 0) ≡ seen_flag false (value_of 1 sample_tic-IsTic.flags.0))
    × (get_or t.nums 1 (negsuc 0) ≡ seen_num false o1 (value_of 1 sample_tic-IsTic.nums.0))
    × (get_or t.strs 1 absent ≡ seen_str false (value_of 1 sample_tic-IsTic.strs.0))
readterm-elements_example =
    readterm-elements sample_host sample_sizes false sample_tic sample_tic-IsTic 1 small short_names
      refl

find_cap-has_example :
    (find_cap o1 sample_tic.flags b'f' 1 >>= λ o. gives (is_some o))
    ≡ gives (has 1 (record { ind = 1; value = flag (pos 1) } ∷ []))
find_cap-has_example =
    find_cap-has o1 b'f' 1 sample_tic.flags (record { ind = 1; value = flag (pos 1) } ∷ []) am_flag

promote-gives_example :
    (t : Tic) × (promote sample_host sample_tic ≡ gives t)
    × (t.rtype ≡ v3)
    × SameNums sample_host sample_sizes sample_tic-IsTic.nums.0 t
    × ((es : List Extra) × HoldsExtra v3 t.extras es × (names es ≡ names sample_tic-IsTic.extras.0))
promote-gives_example =
    promote-gives sample_host sample_sizes sample_tic sample_tic-IsTic (λ l. refl) refl
      (new_name [] _ [] (inr refl) (no_name _))

append_extra-appended_example :
    append_extra sample_host o1 empty (b'z' ∷ []) b'n' (negsuc 0) (pos 40000) [] ≡ (
      if granted sample_host.grants empty (2 + 2 + 1 + value_size o1 b'n' [])
      then gives (appended empty (extra_bytes o1 (extra_of o1 (b'z' ∷ []) (num (pos 40000)))))
      else fails)
append_extra-appended_example =
    append_extra-appended sample_host o1 empty (b'z' ∷ []) (num (pos 40000)) (negsuc 0) (pos 40000)
      [] (num_args (negsuc 0) (pos 40000) []) (omega arith) (omega arith)

-- co@ in a record with 16-bit numbers.
abbrev without_cols : Tic
without_cols = record sample_tic {
  nums = record { text = 0 ∷ 0 ∷ 254 ∷ 255 ∷ []; size = 4; entries = 1 };
}

no_cols : Holds o1 b'n' without_cols.nums (record { ind = 0; value = num cancelled } ∷ [])
unfolding u16 byte unsigned
no_cols = record {
  bytes = refl;
  count = refl;
  fits = one_more _ [] refl (omega arith) (omega arith) none_left;
}

abbrev without_cols-IsTic : IsTic sample_host sample_sizes without_cols
without_cols-IsTic = record {
  alias_room = inr (λ l. refl);
  flags = (_, am_flag, and_below _ [] (omega arith) end_below, alone _);
  nums = (_, no_cols, and_below _ [] (omega arith) end_below, alone _);
  strs = (_, bl_str, and_below _ [] (omega arith) end_below, alone _);
  extras = (_, zz_extra);
}

without_cols-IsFlatTic : IsFlatTic without_cols
without_cols-IsFlatTic = record {
  flags_fit = record { text_fits = omega arith; entries_fit = omega arith };
  nums_fit = record { text_fits = omega arith; entries_fit = omega arith };
  strs_fit = record { text_fits = omega arith; entries_fit = omega arith };
  extras_fit = record { text_fits = omega arith; entries_fit = omega arith };
}

without_cols-IsNamed : IsNamed without_cols
unfolding terminated
without_cols-IsNamed = record {
  name_fits = omega arith;
  alias_fits = omega arith;
  desc_fits = omega arith;
}

cancelled-read_example :
    (t : Terminal) × ((flatten sample_host without_cols >>= λ bytes.
    readterm sample_sizes false bytes)
      ≡ gives t)
    × (get_or t.nums 0 (negsuc 0) ≡ pos 65534)
cancelled-read_example =
    cancelled-read sample_host sample_sizes false without_cols without_cols-IsTic 0
      without_cols-IsFlatTic without_cols-IsNamed refl refl refl

promoted_alias-first_example :
    promoted_alias sample_host (some (b'a' ∷ b'|' ∷ b'b' ∷ []))
    ≡ gives (some (b'a' ∷ [] ++ version v3))
promoted_alias-first_example =
    promoted_alias-first sample_host (b'a' ∷ []) (b'b' ∷ []) (λ l. refl)
      (not_here b'a' [] refl none_here) (not_here b'a' [] refl none_here)
      (not_here b'a' [] refl none_here)
