-- ===== src/Cache/Render.antt =====
-- The classification identity of src/cache/manifest.rs, before it is digested.
use mathlib.Core.List.{append_assoc}
use apg.Prelude.{◌≡◌, refl, sym, ap, List, [], ◌∷◌, ◌++◌, Option, none, some}
use apg.Text.{Text, codes}
use apg.Classify.Config.{ApgConfig, CodeTypeRule, StructuralScope}

-- `v.join("\0")`
unfoldable pub join : List Text → Text
join [] = []
join (s ∷ []) = s
join (s ∷ t ∷ ss) = s ++ 0 ∷ join (t ∷ ss)

-- The separator, a word and the separator.
abbrev pub field : Text → Text
field word = 0 ∷ word ++ 0 ∷ []

unfoldable pub rule_render : CodeTypeRule → Text
rule_render rule =
    field (codes "type")
    ++ (rule.name
        ++ (field (codes "globs")
            ++ (join rule.globs ++ (field (codes "names") ++ join rule.names))))

-- the loop over the rules
unfoldable pub rules_render : List CodeTypeRule → Text
rules_render [] = []
rules_render (rule ∷ rules) = rule_render rule ++ rules_render rules

unfoldable pub scope_render : Option StructuralScope → Text
scope_render none = codes "none"
scope_render (some scope) =
    codes "exclude"
    ++ (0
        ∷ (join scope.exclude
            ++ (field (codes "include")
                ++ (join scope.include
                    ++ (field (codes "code_type")
                        ++ elim scope.code_type [ none ↦ [] | some t ↦ t ])))))

unfoldable pub classification_render : ApgConfig → Text
classification_render cfg =
    codes "default"
    ++ (0
        ∷ (cfg.default
            ++ (rules_render cfg.types
                ++ (field (codes "structural") ++ scope_render cfg.structural))))

join-append :
    (s : Text) (ss : List Text) (t : Text) (ts : List Text)
    → join ((s ∷ ss) ++ t ∷ ts) ≡ join (s ∷ ss) ++ 0 ∷ join (t ∷ ts)
unfolding join
join-append s [] t ts = refl
join-append s (r ∷ ss) t ts =
    rw (join-append r ss t ts) (sym (append_assoc s (0 ∷ join (r ∷ ss)) (0 ∷ join (t ∷ ts))))

abbrev pub rule_of : Text → List Text → List Text → CodeTypeRule
rule_of name globs names = record { name = name; globs = globs; names = names }

join_names :
    (t : Text) (ts : List Text) → join (codes "names" ∷ t ∷ ts) ≡ codes "names" ++ 0 ∷ join (t ∷ ts)
unfolding join
join_names t ts = refl

join-shift :
    (g : Text) (gs : List Text) (h : Text) (hs : List Text) (n : Text) (ns : List Text)
    → join ((g ∷ gs) ++ codes "names" ∷ h ∷ hs) ++ (field (codes "names") ++ join (n ∷ ns))
      ≡ join (g ∷ gs) ++ (field (codes "names") ++ join ((h ∷ hs) ++ codes "names" ∷ n ∷ ns))
join-shift g gs h hs n ns =
    rw
      (
        join-append g gs (codes "names") (h ∷ hs),
        join-append h hs (codes "names") (n ∷ ns),
        join_names h hs,
        join_names n ns,
      )
      (append_assoc (join (g ∷ gs)) (field (codes "names") ++ join (h ∷ hs))
        (field (codes "names") ++ join (n ∷ ns)))

rule_render-shift :
    (name g : Text) (gs : List Text) (h : Text) (hs : List Text) (n : Text) (ns : List Text)
    → rule_render (rule_of name ((g ∷ gs) ++ codes "names" ∷ h ∷ hs) (n ∷ ns))
      ≡ rule_render (rule_of name (g ∷ gs) ((h ∷ hs) ++ codes "names" ∷ n ∷ ns))
unfolding rule_render
rule_render-shift name g gs h hs n ns =
    ap (λ t. field (codes "type") ++ (name ++ (field (codes "globs") ++ t)))
      (join-shift g gs h hs n ns)

rules_render-replace :
    (before after : List CodeTypeRule) (r q : CodeTypeRule)
    → rule_render r ≡ rule_render q
    → rules_render (before ++ r ∷ after) ≡ rules_render (before ++ q ∷ after)
unfolding rules_render
rules_render-replace [] after r q e = ap (λ t. t ++ rules_render after) e
rules_render-replace (x ∷ before) after r q e =
    ap (λ t. rule_render x ++ t) (rules_render-replace before after r q e)

abbrev pub with_rules : ApgConfig → List CodeTypeRule → ApgConfig
with_rules cfg rules = record { default = cfg.default; types = rules; structural = cfg.structural }

-- Two configs have one rendering if they differ in one rule alone, where the one has the globs `g` and
-- `gs`, the word `names`, `h` and `hs`, and the names `n` and `ns`, and the other has the globs `g` and
-- `gs`, and the names `h` and `hs`, the word `names`, `n` and `ns`.
pub classification_render-shift :
    (cfg : ApgConfig) (before after : List CodeTypeRule) (name g : Text) (gs : List Text) (h : Text)
    (hs : List Text) (n : Text) (ns : List Text)
    → classification_render (
        with_rules cfg
          (before ++ rule_of name ((g ∷ gs) ++ codes "names" ∷ h ∷ hs) (n ∷ ns) ∷ after))
      ≡ classification_render (
          with_rules cfg
            (before ++ rule_of name (g ∷ gs) ((h ∷ hs) ++ codes "names" ∷ n ∷ ns) ∷ after))
unfolding classification_render
classification_render-shift cfg before after name g gs h hs n ns =
    ap
      (λ t.
        codes "default"
        ++ (0
            ∷ (cfg.default ++ (t ++ (field (codes "structural") ++ scope_render cfg.structural)))))
      (rules_render-replace before after
        (rule_of name ((g ∷ gs) ++ codes "names" ∷ h ∷ hs) (n ∷ ns))
        (rule_of name (g ∷ gs) ((h ∷ hs) ++ codes "names" ∷ n ∷ ns))
        (rule_render-shift name g gs h hs n ns))
