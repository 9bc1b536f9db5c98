-- ===== src/Terminfo/Compile/Flatten.antt =====
-- lib/libterminfo/compile.c: _ti_flatten, which lays a description out as the bytes of a record.
use netbsd_curses.Base.{
  ℕ, ◌+◌, leb, ◌==◌, if◌then◌else◌, Option, none, some, List, [], ◌∷◌, ◌++◌, length,
}
use netbsd_curses.Terminfo.Bytes.{
  Answer, gives, fails, outside, ◌>>=◌, encode_16, encode_count_str, Rtype, o1, v3,
}
use netbsd_curses.Terminfo.Tbuf.{Tbuf}
use netbsd_curses.Terminfo.Compile.{Host, Tic}

-- The bytes of a string with its NUL; none for NULL.
unfoldable pub terminated : Option (List ℕ) → List ℕ
terminated none = []
terminated (some s) = s ++ 0 ∷ []

unfoldable pub encode_buf : Tbuf → Answer (List ℕ)
encode_buf t = if t.entries == 0 then encode_16 0 else (do
  len ← encode_16 (length t.text + 2)
  count ← encode_16 t.entries
  gives (len ++ (count ++ t.text)))

-- TERMINFO_RTYPE_O1 is 1, TERMINFO_RTYPE is 3.
unfoldable pub rtype_byte : Rtype → ℕ
rtype_byte o1 = 1
rtype_byte v3 = 3

unfoldable pub flat_size : Tic → ℕ
flat_size tic =
    1
    + (2 + length (terminated (some tic.name)))
    + (2 + length (terminated tic.alias))
    + (2 + length (terminated tic.desc))
    + (4 + length tic.flags.text)
    + (4 + length tic.nums.text)
    + (4 + length tic.strs.text)
    + (4 + length tic.extras.text)

-- The writes go from one end of the allocated bytes to the other; past their end they are outside.
unfoldable pub flatten : Host → Tic → Answer (List ℕ)
flatten host tic =
    if host.grants (flat_size tic)
    then (do
      name ← encode_count_str (terminated (some tic.name))
      alias ← encode_count_str (terminated tic.alias)
      desc ← encode_count_str (terminated tic.desc)
      flags ← encode_buf tic.flags
      nums ← encode_buf tic.nums
      strs ← encode_buf tic.strs
      extras ← encode_buf tic.extras
      let buf =
          rtype_byte tic.rtype
          ∷ (name ++ (alias ++ (desc ++ (flags ++ (nums ++ (strs ++ extras))))))
      if leb (length buf) (flat_size tic) then gives buf else outside)
    else fails
