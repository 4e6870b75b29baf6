-- ===== src/Sstable/Reader/Maps.antt =====
-- The maps that a scan fills.
use mathlib.Core.Path.{subst}
use amethyst.Base.{
  ◌≡◌, refl, true, false, some, [], ◌∷◌, Key, Slice, if◌then◌else◌, All, arith, key_eqb, key_eqb-eq,
  key_eqb_refl, key_eqb_comm,
}
use amethyst.Sstable.Reader.{ByteMap, map_set, map_get}

pub map_get-map_set :
    (j k : Key) (v : Slice) (m : ByteMap)
    → map_get j (map_set k v m) ≡ (if key_eqb k j then some v else map_get j m)
unfolding map_get map_set
map_get-map_set j k v [] = refl
map_get-map_set j k v ((i, w) ∷ m) = ground (
  arith,
  map_get-map_set j k v m,
  key_eqb-eq i k,
  key_eqb-eq i j,
  key_eqb-eq k j,
  key_eqb_refl j,
  key_eqb_refl k,
)

-- No key stands twice.
abbrev pub Lacks : Key → ByteMap → Type 0
Lacks key = All (λ p. key_eqb p.0 key ≡ false)

abbrev pub IsMap : ByteMap → Type 0
IsMap [] = Unit
IsMap ((k, v) ∷ m) = Lacks k m × IsMap m

pub map_set-Lacks :
    (j k : Key) (v : Slice) (m : ByteMap)
    → key_eqb k j ≡ false
    → Lacks j m
    → Lacks j (map_set k v m)
unfolding map_set
map_set-Lacks j k v [] d h = (d, tt)
map_set-Lacks j k v ((i, w) ∷ m) d h = ground (arith, map_set-Lacks j k v m d h.1)

pub Lacks-same : (i k : Key) (m : ByteMap) → Lacks i m → key_eqb i k ≡ true → Lacks k m
Lacks-same i k m h e = subst (λ t. Lacks t m) (key_eqb-eq i k e) h

pub map_set-IsMap : (k : Key) (v : Slice) (m : ByteMap) → IsMap m → IsMap (map_set k v m)
unfolding map_set
map_set-IsMap k v [] h = (tt, tt)
map_set-IsMap k v ((i, w) ∷ m) h =
    ground (
      arith,
      map_set-IsMap k v m h.1,
      map_set-Lacks i k v m,
      key_eqb_comm i k,
      Lacks-same i k m h.0,
    )
