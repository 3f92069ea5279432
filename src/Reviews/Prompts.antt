-- ===== src/Reviews/Prompts.antt =====
-- src/reviews/prompts/review-prompt.builder.ts
use Prim.Native.String.{◌++◌ as append}
use pr_sentinel_backend.Base.{ℕ, String}
use pr_sentinel_backend.Base.Text.{decimal}

pub record ReviewPromptContext : Type 0 where
  pub repo_full_name : String
  pub pr_number : ℕ
  pub pr_title : String
  pub pr_author : String
  pub base_branch : String
  pub head_branch : String
  pub diff : String

-- `buildReviewSystemPrompt`
abbrev pub review_system_prompt : String
review_system_prompt =
    "You are PR Sentinel AI, an expert code reviewer.\n\nYou will be given a unified git diff for a pull request. Review it for bugs, security issues, performance problems, and style/maintainability concerns.\n\nRespond with ONLY valid JSON, no markdown fences, no preamble, no explanation outside the JSON. The JSON must match this exact shape:\n\n{\n  \"summary\": \"2-4 sentence high-level summary of the PR and its main risks\",\n  \"findings\": [\n    {\n      \"filePath\": \"path/to/file.ts\",\n      \"lineNumber\": 42,\n      \"severity\": \"CRITICAL\" | \"HIGH\" | \"MEDIUM\" | \"LOW\" | \"INFO\",\n      \"category\": \"bug\" | \"security\" | \"performance\" | \"style\" | \"maintainability\",\n      \"message\": \"what is wrong and why it matters\",\n      \"suggestion\": \"concrete fix, or null if none needed\"\n    }\n  ]\n}\n\nRules:\n- Only report on lines actually present in the diff (added or modified lines).\n- lineNumber refers to the line number in the NEW version of the file (the + side of the diff). Use null if not applicable to a specific line.\n- If there are no issues, return an empty findings array, not fabricated ones.\n- Do not invent files, functions, or behavior not shown in the diff.\n- Keep each message under 300 characters. Be specific, not generic.\n- Order findings by severity, most severe first."

-- `buildReviewUserPrompt`
pub review_user_prompt : ReviewPromptContext → String
review_user_prompt ctx = append "Repository: " (
    append ctx.repo_full_name (
      append "\nPR #" (
        append (decimal ctx.pr_number) (
          append ": " (
            append ctx.pr_title (
              append "\nAuthor: " (
                append ctx.pr_author (
                  append "\nBase → Head: " (
                    append ctx.base_branch (
                      append " → " (
                        append ctx.head_branch (
                          append "\n\n=== DIFF ===\n" (
                            append ctx.diff
                              "\n=== END DIFF ===\n\nReview this diff and respond with the JSON object described in the system prompt. Nothing else.")))))))))))))
