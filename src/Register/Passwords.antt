-- ===== src/Register/Passwords.antt =====
-- When the two passwords pass, and what the form shows then.
use polarcloud.Prelude.{
  ◌≡◌, ◌≢◌, ◌⊎◌, inl, inr, true, false, [], none, some, Text, js, eq_text, eq_text_iff,
  eq_text_refl, eq_text_sound, arith, Bool-cases,
}
use polarcloud.Register.{Form, check_passwords}

-- The passwords pass exactly if the first is not empty and the second is the same; exactly then the
-- form shows no tip, whatever tip it showed before. The rest of the form stays.
check_passwords_lem :
    (pass1 repassword : Text) (f : Form)
    → ((pass1 ≢ [])
        × (pass1 ≡ repassword)
        × (check_passwords pass1 repassword f ≡ (record f { tip = none }, true)))
      ⊎ ((pass1 ≡ [])
          × (check_passwords pass1 repassword f ≡ (record f { tip = some (js "密码不能为空") }, false)))
      ⊎ ((pass1 ≢ [])
          × (pass1 ≢ repassword)
          × (check_passwords pass1 repassword f
              ≡ (record f { tip = some (js "两次输入的密码不一致") }, false)))
unfolding check_passwords
check_passwords_lem pass1 repassword f = elim (Bool-cases (eq_text pass1 [])) [
  | inl nil ↦ inr (inl (eq_text_sound pass1 [] nil, ground arith))
  | inr some_ ↦ elim (Bool-cases (eq_text pass1 repassword)) [
    | inl same ↦
        inl (ground (arith, eq_text_refl pass1), eq_text_sound pass1 repassword same, ground arith)
    | inr other ↦ inr (
        inr (
          ground (arith, eq_text_refl pass1),
          ground (arith, eq_text_iff pass1 repassword),
          ground arith,
        ))
  ]
]
