-- ===== src/Tree.antt =====
-- crates/omsh-syntax/src/ast/mod.rs: the syntax tree, without the spans, which execution does not read.
-- A `Vec` of a type of the tree is a list type of its own in the block.
use oh_my_shell.Base.{ℕ, Bytes, Bool, Option}
use oh_my_shell.Pattern.Affix.{ParamOp}

-- `AndOrOp`
pub data AndOrOp : Type 0 where
  and_op or_op : AndOrOp

pub data RedirectOp : Type 0 where
  input output append read_write clobber dup_input dup_output : RedirectOp
  output_and_error append_and_error here_string : RedirectOp

mutual
  -- `PartKind`: of a parameter the name, `length`, the operator and the word after it.
  pub data Part : Type 0 where
    literal escaped single_quoted ansi_c_quoted : Bytes → Part
    double_quoted arithmetic : Word → Part
    parameter : Bytes → Bool → Option ParamOp → Word → Part
    command_sub : Items → Part

  -- `Word`: its parts.
  pub data Word : Type 0 where
    no_parts : Word
    parts : Part → Word → Word

  pub data Words : Type 0 where
    no_words : Words
    words : Word → Words → Words

  -- `Assignment`s, each a name and a value.
  pub data Assignments : Type 0 where
    no_assignments : Assignments
    assigning : Bytes → Word → Assignments → Assignments

  -- `Redirect`: the descriptor in front, and an operator with a word, or a here-document with its
  -- `quoted` flag and its body.
  pub data Redirect : Type 0 where
    target : Option ℕ → RedirectOp → Word → Redirect
    here_doc : Option ℕ → Bool → Word → Redirect

  pub data Redirects : Type 0 where
    no_redirects : Redirects
    redirects : Redirect → Redirects → Redirects

  -- `CommandKind`: a `for` may have no words; `function` is a `FunctionDef`.
  pub data Kind : Type 0 where
    simple : Assignments → Words → Kind
    subshell group : Items → Kind
    if_branches : Branches → Kind
    while_loop until_loop : Items → Items → Kind
    for_words : Bytes → Words → Items → Kind
    for_positional : Bytes → Items → Kind
    case_of : Word → Arms → Kind
    function : Bytes → Command → Kind

  pub data Command : Type 0 where
    command : Kind → Redirects → Command

  pub data Branches : Type 0 where
    no_else : Branches
    else_body : Items → Branches
    branch : Items → Items → Branches → Branches

  -- `CaseArm`s: the patterns and the body.
  pub data Arms : Type 0 where
    no_arms : Arms
    arm : Words → Items → Arms → Arms

  -- The commands of a pipeline.
  pub data Stages : Type 0 where
    no_stages : Stages
    stages : Command → Stages → Stages

  -- `Pipeline`: `negated`, and the commands.
  pub data Pipeline : Type 0 where
    pipeline : Bool → Stages → Pipeline

  -- `AndOr`: the first pipeline, and each other after its operator.
  pub data AndOr : Type 0 where
    and_or : Pipeline → Rest → AndOr

  pub data Rest : Type 0 where
    no_rest : Rest
    part : AndOrOp → Pipeline → Rest → Rest

  -- `List`: the items, each with `background`.
  pub data Items : Type 0 where
    no_items : Items
    item : AndOr → Bool → Items → Items
