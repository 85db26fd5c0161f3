-- ===== src/Rules/Texts.antt =====
-- The helpers that internal/diagnosis/rules/service/rules.go, statefulset.go and ingress.go declare
-- each for itself: the keys of a map in their order, a list of names, a selector.
use kubewhy.Base.{◌==◌, String, String_eq, List, [], ◌∷◌, if◌then◌else◌, any, map}
use kubewhy.Base.Sort.{sort_stable}
use kubewhy.Base.Text.{◌<>◌, join, text_less}

-- The keys of a Go map that is built from a list: each one once.
unfoldable pub distinct : List String → List String
unfolding any
distinct [] = []
distinct (s ∷ ss) = let rest = distinct ss in if any (λ t. t == s) rest then rest else s ∷ rest

-- sort.Strings
unfoldable pub sort_texts : List String → List String
unfolding sort_stable
sort_texts ss = sort_stable text_less ss

-- sortedKeys
unfoldable pub sorted_keys : List String → List String
unfolding distinct sort_texts
sorted_keys names = sort_texts (distinct names)

-- joinOrNone
unfoldable pub join_or_none : List String → String
join_or_none [] = "none"
join_or_none (s ∷ ss) = join ", " (s ∷ ss)

-- formatSelector
unfoldable pub format_selector : List (String × String) → String
unfolding sort_texts
format_selector selector = join "," (sort_texts (map (λ e. e.0 <> "=" <> e.1) selector))
