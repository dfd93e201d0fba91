-- ===== src/Address/Unix.antt =====
-- Addresses of Unix sockets (src/address.cc): `sun_path` with its 108 bytes, and `m_length`.
use lt.Base.{
  ℕ, ◌+◌, ◌-◌, Bool, false, ◌&&◌, List, [], ◌∷◌, ◌++◌, Option, none, some, ◌==◌, if◌then◌else◌, ltb,
  length, take,
}
use lt.Address.Masks.{zeros}

pub record UnixAddress : Type 0 where
  pub sun_path : List ℕ
  pub length : ℕ

-- `offsetof(sockaddr_un, sun_path)`
abbrev pub offset : ℕ
offset = 2

-- `path[0] == '\0'`
unfoldable pub is_abstract : List ℕ → Bool
is_abstract [] = false
is_abstract (c ∷ _) = c == 0

-- `UnixAddress()`.
unfoldable pub any_unix : UnixAddress
unfolding zeros
any_unix = record { sun_path = zeros 108; length = offset + 107 }

-- `UnixAddress(path)`; `none` for the exception.
unfoldable pub new_unix : List ℕ → Option UnixAddress
unfolding is_abstract zeros
new_unix path =
    let n = if is_abstract path then length path else length path + 1 in
    if ltb 108 n
    then none
    else some
        (record { sun_path = take n (path ++ 0 ∷ []) ++ zeros (108 - n); length = n + offset })

-- `setAddrLen`.
unfoldable pub set_addr_len : ℕ → UnixAddress → UnixAddress
set_addr_len v a = record a { length = v }

-- The text of a buffer up to its first zero.
unfoldable pub c_string : List ℕ → List ℕ
c_string [] = []
c_string (c ∷ rest) = let text = c_string rest in if c == 0 then [] else c ∷ text

unfoldable pub tail : List ℕ → List ℕ
tail [] = []
tail (_ ∷ rest) = rest

-- `getPath`, also what `insert` writes: the two characters `\0` for an abstract address.
unfoldable pub get_path : UnixAddress → List ℕ
unfolding is_abstract c_string tail
get_path a =
    if ltb offset a.length && is_abstract a.sun_path
    then 92 ∷ 48 ∷ take (a.length - offset - 1) (tail a.sun_path)
    else c_string a.sun_path
