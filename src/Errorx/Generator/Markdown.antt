-- ===== src/Errorx/Generator/Markdown.antt =====
-- errorx/generator/generator.go: the Markdown document of the error codes. The base name of a path,
-- `strings.EqualFold` and `strings.ToLower` beyond ASCII are arguments.
pub mod Cells
use finokit.Base.{
  ℕ, List, [], ◌∷◌, ◌++◌, Option, none, some, Bool, true, false, not, ◌&&◌, Text, text, is_empty,
  trim_space, to_lower, ltb_text, replace_all, length, ℤ, pos, ltb_ℤ, eqb_ℤ, format_int, format_nat,
  if◌then◌else◌,
}
use finokit.Errorx.Generator.{Definition, File, InputFile, compose_error_code, count_in_sla}

unfoldable pub markdown_cell : Text → Text
unfolding replace_all
markdown_cell value =
    replace_all (replace_all (replace_all value (text "|") (text "\\|")) (text "\r") (text " "))
      (text "\n") (text " ")

unfoldable pub default_markdown_cell : Text → Text
unfolding trim_space
default_markdown_cell value = if is_empty (trim_space value) then text "—" else value

unfoldable pub markdown_message : Definition → Text
unfolding trim_space
markdown_message d =
    if is_empty (trim_space d.message)
    then text "Service Internal Error" ++ text "（默认）"
    else trim_space d.message

unfoldable pub markdown_http_status : Definition → Text
unfolding format_int
markdown_http_status d =
    if eqb_ℤ d.http_status (pos 0)
    then format_int (pos 500) ++ text "（默认）"
    else format_int d.http_status

unfoldable pub markdown_count_in_sla : Definition → Text
unfolding count_in_sla
markdown_count_in_sla d =
    let value = if count_in_sla d then text "是" else text "否" in
    elim d.count_in_sla [ none ↦ value ++ text "（默认）" | some b ↦ value ]

-- The stable sort of the definitions by their codes.
unfoldable pub insert_definition : Definition → List Definition → List Definition
insert_definition d [] = d ∷ []
insert_definition d (e ∷ es) =
    let later = insert_definition d es in if ltb_ℤ e.code d.code then e ∷ later else d ∷ e ∷ es

unfoldable pub sort_definitions : List Definition → List Definition
unfolding insert_definition
sort_definitions [] = []
sort_definitions (d ∷ ds) = insert_definition d (sort_definitions ds)

abbrev newline : Text
newline = text "\n"

-- One row of a table.
unfoldable pub row : List Text → Text
row [] = text "|" ++ newline
row (cell ∷ cells) = text "| " ++ cell ++ text " " ++ row cells

unfoldable pub last_code : ℤ → List Definition → ℤ
last_code c [] = c
last_code c (d ∷ ds) = last_code d.code ds

-- The row of a definition.
unfoldable pub definition_row : File → Definition → Text
unfolding row markdown_cell default_markdown_cell markdown_message markdown_http_status
    markdown_count_in_sla compose_error_code
definition_row spec d = row (
    format_int (compose_error_code spec.app_code spec.biz_code d.code)
    ∷ markdown_cell d.name
    ∷ markdown_cell (markdown_message d)
    ∷ markdown_cell (default_markdown_cell d.description)
    ∷ markdown_http_status d
    ∷ markdown_count_in_sla d
    ∷ [])

unfoldable pub definition_rows : File → List Definition → Text
unfolding definition_row
definition_rows spec [] = []
definition_rows spec (d ∷ ds) = definition_row spec d ++ definition_rows spec ds

abbrev intro : Text
intro =
    text "# 业务错误码"
    ++ newline
    ++ newline
    ++ text "> 此文件由 `errorxgen` 自动生成，请勿手动修改。"
    ++ newline
    ++ newline
    ++ text "本文档是业务错误码的统一索引。模块顺序为：`platform` 优先，其它模块按定义文件名升序排列；同一模块内按错误子码升序排列。"
    ++ newline
    ++ newline
    ++ text "## 编码与字段约定"
    ++ newline
    ++ newline
    ++ text
        "- `错误码`：稳定的机器可读业务标识，格式为 `appCode(1位) + bizCode(4位) + code(4位)`；客户端和服务间应按错误码判断，不要按消息文本判断。"
    ++ newline
    ++ text "- `Reason / 名称`：稳定的业务原因名称，用于代码调用、日志检索和错误判断；名称一旦发布不应复用。"
    ++ newline
    ++ text "- `消息模板`：面向调用方或用户的可读消息，可包含 `{key}` 占位符；不承载底层异常和敏感信息。"
    ++ newline
    ++ text "- `场景说明`：说明错误何时发生，帮助调用方和维护者正确处理。"
    ++ newline
    ++ text "- `HTTP 状态`：协议层映射，不参与业务错误码唯一性；未配置时使用 `500`。"
    ++ newline
    ++ text "- `SLA 统计`：仅用于稳定性指标和告警策略；未配置时使用 `是`。运行时的 `extra/metadata` 属于单次错误上下文，不在错误码目录中固定。"
    ++ newline
    ++ newline
    ++ text "## 总览"
    ++ newline
    ++ newline
    ++ text "| 业务模块 | 定义文件 | appCode | bizCode | 错误数 | 错误码范围 |"
    ++ newline
    ++ text "| --- | --- | ---: | ---: | ---: | --- |"
    ++ newline

abbrev module_heads : Text
module_heads =
    text "| 错误码 | Reason / 名称 | 消息模板 | 场景说明 | HTTP 状态 | SLA 统计 |"
    ++ newline
    ++ text "| ---: | --- | --- | --- | ---: | --- |"
    ++ newline

module _ (base : Text → Text) (equal_fold : Text → Text → Bool) (lower : ℕ → ℕ) where
  -- The order of the modules: the platform, then by name.
  unfoldable pub is_before : InputFile → InputFile → Bool
  unfolding ltb_text to_lower
  is_before f g =
      let f_platform = equal_fold f.biz_name (text "platform") in
      let g_platform = equal_fold g.biz_name (text "platform") in
      if f_platform
      then (if g_platform
          then ltb_text (to_lower lower f.biz_name) (to_lower lower g.biz_name)
          else true)
      else (if g_platform
          then false
          else ltb_text (to_lower lower f.biz_name) (to_lower lower g.biz_name))

  unfoldable pub insert_input : InputFile → List InputFile → List InputFile
  unfolding is_before
  insert_input f [] = f ∷ []
  insert_input f (g ∷ gs) =
      let later = insert_input f gs in if is_before g f then g ∷ later else f ∷ g ∷ gs

  unfoldable pub sort_inputs : List InputFile → List InputFile
  unfolding insert_input
  sort_inputs [] = []
  sort_inputs (f ∷ fs) = insert_input f (sort_inputs fs)

  -- The row of a module in the overview; there is a first definition where the file was validated.
  unfoldable pub overview_row : InputFile → Text
  unfolding row markdown_cell sort_definitions last_code compose_error_code
  overview_row f = elim (sort_definitions f.spec.error_code) [
    | [] ↦ []
    | d ∷ ds ↦ row (
        markdown_cell f.biz_name
        ∷ markdown_cell (base f.path)
        ∷ format_int f.spec.app_code
        ∷ format_int f.spec.biz_code
        ∷ format_nat (length (d ∷ ds))
        ∷ (format_int (compose_error_code f.spec.app_code f.spec.biz_code d.code)
            ++ text " - "
            ++ format_int
                (compose_error_code f.spec.app_code f.spec.biz_code (last_code d.code ds)))
        ∷ [])
  ]

  unfoldable pub overview : List InputFile → Text
  unfolding overview_row
  overview [] = []
  overview (f ∷ fs) = overview_row f ++ overview fs

  unfoldable pub module_tables : List InputFile → Text
  unfolding definition_rows sort_definitions markdown_cell
  module_tables [] = []
  module_tables (f ∷ fs) =
      newline
      ++ text "## "
      ++ markdown_cell f.biz_name
      ++ newline
      ++ newline
      ++ module_heads
      ++ definition_rows f.spec (sort_definitions f.spec.error_code)
      ++ module_tables fs

  -- The document that `generateMarkdown` writes.
  unfoldable pub markdown : List InputFile → Text
  unfolding sort_inputs overview module_tables
  markdown fs = let ordered = sort_inputs fs in intro ++ overview ordered ++ module_tables ordered
