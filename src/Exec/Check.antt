-- ===== src/Exec/Check.antt =====
-- crates/omsh-exec/src/check.rs: whether a list holds nothing that cannot run yet.
use oh_my_shell.Base.{Bool, true, not, ◌&&◌}
use oh_my_shell.Tree.{
  Part, literal, escaped, single_quoted, ansi_c_quoted, double_quoted, arithmetic, parameter,
  command_sub, Word, no_parts, parts, Words, no_words, words, Assignments, no_assignments,
  assigning, Redirect, target, here_doc, Redirects, no_redirects, redirects, Kind, simple, subshell,
  group, if_branches, while_loop, until_loop, for_words, for_positional, case_of, function, Command,
  command, Branches, no_else, else_body, branch, Arms, no_arms, arm, Stages, no_stages, stages,
  Pipeline, pipeline, AndOr, and_or, Rest, no_rest, part, Items, no_items, item,
}

-- Each `?` of the source is an `&&`: the first thing that cannot run yet ends the check.
unfoldable mutual
  pub check_list : Items → Bool
  check_list no_items = true
  check_list (item a background rest) = not background && (check_and_or a && check_list rest)

  pub check_and_or : AndOr → Bool
  check_and_or (and_or first rest) = check_pipeline first && check_rest rest

  pub check_rest : Rest → Bool
  check_rest no_rest = true
  check_rest (part op p rest) = check_pipeline p && check_rest rest

  pub check_pipeline : Pipeline → Bool
  check_pipeline (pipeline negated commands) = check_stages commands

  pub check_stages : Stages → Bool
  check_stages no_stages = true
  check_stages (stages c rest) = check_command c && check_stages rest

  pub check_command : Command → Bool
  check_command (command kind rs) = check_redirects rs && check_kind kind

  pub check_kind : Kind → Bool
  check_kind (simple asg ws) = check_assignments asg && check_words ws
  check_kind (subshell body) = check_list body
  check_kind (group body) = check_list body
  check_kind (if_branches branches) = check_branches branches
  check_kind (while_loop condition body) = check_list condition && check_list body
  check_kind (until_loop condition body) = check_list condition && check_list body
  check_kind (for_words name ws body) = check_words ws && check_list body
  check_kind (for_positional name body) = check_list body
  check_kind (case_of w arms) = check_word w && check_arms arms
  check_kind (function name body) = check_command body

  pub check_branches : Branches → Bool
  check_branches no_else = true
  check_branches (else_body body) = check_list body
  check_branches (branch condition body rest) =
      check_list condition && (check_list body && check_branches rest)

  pub check_arms : Arms → Bool
  check_arms no_arms = true
  check_arms (arm patterns body rest) = check_words patterns && (check_list body && check_arms rest)

  pub check_assignments : Assignments → Bool
  check_assignments no_assignments = true
  check_assignments (assigning name value rest) = check_word value && check_assignments rest

  pub check_redirects : Redirects → Bool
  check_redirects no_redirects = true
  check_redirects (redirects r rest) = check_redirect r && check_redirects rest

  pub check_redirect : Redirect → Bool
  check_redirect (target fd op w) = check_word w
  check_redirect (here_doc fd quoted body) = check_word body

  pub check_words : Words → Bool
  check_words no_words = true
  check_words (words w rest) = check_word w && check_words rest

  -- `check_word` and `check_parts`
  pub check_word : Word → Bool
  check_word no_parts = true
  check_word (parts p rest) = check_part p && check_word rest

  pub check_part : Part → Bool
  check_part (command_sub body) = check_list body
  check_part (double_quoted inner) = check_word inner
  check_part (arithmetic inner) = check_word inner
  check_part (parameter name length op arg) = check_word arg
  check_part (literal text) = true
  check_part (escaped text) = true
  check_part (single_quoted text) = true
  check_part (ansi_c_quoted text) = true
