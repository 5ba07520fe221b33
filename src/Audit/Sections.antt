-- ===== src/Audit/Sections.antt =====
-- internal/audit/log.go: SectionsList. sort.Strings is an insertion sort by bytes here; the names of a
-- map are distinct, so that every sort gives the same list.
use linkedin_api.Base.{Bool, true, false, ◌&&◌, ◌||◌, [], ◌∷◌, ◌++◌, ltb, ◌==◌, if◌then◌else◌, Text}
use linkedin_api.Base.Dict.{Dict}

-- s <= t in the order of bytes
unfoldable pub text_leb : Text → Text → Bool
text_leb [] t = true
text_leb (a ∷ s) [] = false
text_leb (a ∷ s) (b ∷ t) = ltb a b || (a == b && text_leb s t)

unfoldable pub insert : Text × Text → Dict Text → Dict Text
unfolding text_leb
insert x [] = x ∷ []
insert x (y ∷ m) = let rest = insert x m in if text_leb x.0 y.0 then x ∷ y ∷ m else y ∷ rest

unfoldable pub sort : Dict Text → Dict Text
unfolding insert
sort [] = []
sort (x ∷ m) = insert x (sort m)

unfoldable pub join : Dict Text → Text
join [] = []
join ((name, status) ∷ []) = name ++ (b':' ∷ status)
join ((name, status) ∷ more) = name ++ (b':' ∷ (status ++ (b',' ∷ join more)))

unfoldable pub sections_list : Dict Text → Text
unfolding sort join
sections_list m = join (sort m)
