-- ===== src/Ingest/Blacklist.antt =====
-- src/ingest/blacklist.rs: the records that the graph leaves out.
use apg.Prelude.{
  Bool, true, false, ◌&&◌, ◌||◌, List, any, Option, none, some, if◌then◌else◌, ◌==◌, nat_eq,
  list_eq,
}
use apg.Text.{strip_text, Text, codes, starts_with}
use apg.Classify.Config.{ApgConfig, is_structural_language}
use apg.Classify.BuildOutput.{is_build_output_path}
use apg.Ingest.Identity.{structural_scope_excludes}

-- The options of an ingest, and `git::path_is_ignored`, which asks the checkout at a base.
pub record IngestOptions : Type 0 where
  pub blacklist : List Text
  pub language : Text
  pub config : Option ApgConfig
  pub base : Option Text
  pub path_is_ignored : Text → Text → Bool

unfoldable pub under_apg_layout : Text → Bool
under_apg_layout identity = identity == codes "apg" || starts_with identity (codes "apg/")

-- `opts.base.is_some_and(|base| path_is_ignored(base, path))`
abbrev pub is_ignored : IngestOptions → Text → Bool
is_ignored opts path = elim opts.base [ none ↦ false | some base ↦ opts.path_is_ignored base path ]

-- The identity that a module's name roots under the stream's language.
unfoldable pub structural_identity : Text → Text → Option Text
structural_identity fqn language = elim (strip_text fqn language) [
  | none ↦ none
  | some rest ↦ strip_text rest (codes ".")
]

abbrev pathless_is_blacklisted : Option Text → IngestOptions → Bool
pathless_is_blacklisted none opts = false
pathless_is_blacklisted (some identity) opts =
    under_apg_layout identity || is_build_output_path identity || is_ignored opts identity

unfoldable pub is_blacklisted : Text → Option Text → Text → IngestOptions → Bool
is_blacklisted fqn path language opts =
    if any (starts_with fqn) opts.blacklist then true else elim path [
      | none ↦
          if is_structural_language language
          then pathless_is_blacklisted (structural_identity fqn language) opts
          else false
      | some p ↦
          is_build_output_path p
          || under_apg_layout p
          || (is_structural_language language && structural_scope_excludes p opts.config)
          || is_ignored opts p
    ]
