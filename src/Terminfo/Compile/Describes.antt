-- ===== src/Terminfo/Compile/Describes.antt =====
-- What a description of lib/libterminfo/compile.c stands for: the capabilities in its buffers.
use netbsd_curses.Base.{ℕ, ◌^◌, ◌<◌, ◌≡◌, List, [], ◌∷◌, ◌++◌, length}
use netbsd_curses.Terminfo.Bytes.{Rtype}
use netbsd_curses.Terminfo.Bytes.RoundTrip.{u16}
use netbsd_curses.Terminfo.Tbuf.{Tbuf}
use netbsd_curses.Terminfo.Tbuf.Entries.{Value, kind, value_bytes, IsFit, Cap, Holds}
use netbsd_curses.Terminfo.Compile.{Tic}

-- A capability that terminfo does not name; the name has its NUL.
pub record Extra : Type 0 where
  pub id : List ℕ
  pub value : Value

abbrev pub extra_bytes : Rtype → Extra → List ℕ
extra_bytes rtype e = (u16 (length e.id) ++ e.id) ++ (kind e.value ∷ value_bytes rtype e.value)

abbrev pub extras_bytes : Rtype → List Extra → List ℕ
extras_bytes rtype [] = []
extras_bytes rtype (e ∷ es) = extra_bytes rtype e ++ extras_bytes rtype es

pub data AllExtra : List Extra → Type 0 where
  no_extra : AllExtra []
  and_extra :
      (e : Extra) (es : List Extra) (s : List ℕ)
      → e.id ≡ s ++ 0 ∷ []
      → length e.id < 2 ^ 16
      → IsFit e.value
      → AllExtra es
      → AllExtra (e ∷ es)

-- The buffer of the capabilities that terminfo does not name.
pub record HoldsExtra (rtype : Rtype) (t : Tbuf) (es : List Extra) : Type 0 where
  pub bytes : t.text ≡ extras_bytes rtype es
  pub count : t.entries ≡ length es
  pub fits : AllExtra es

pub record Describes (tic : Tic) (fs ns ss : List Cap) (es : List Extra) : Type 0 where
  pub flags : Holds tic.rtype b'f' tic.flags fs
  pub nums : Holds tic.rtype b'n' tic.nums ns
  pub strs : Holds tic.rtype b's' tic.strs ss
  pub extras : HoldsExtra tic.rtype tic.extras es
