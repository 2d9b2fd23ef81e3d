-- ===== src/Errors/Messages.antt =====
-- src/modules/bridge/error_mapper.rs: what the user is told for each code.
use im_bridge_rs.Common.{String}
use im_bridge_rs.Errors.Codes.{StErrorCode}

unfoldable pub safe_message : StErrorCode → String
safe_message StErrorCode.st_connect_failed = "无法连接 SillyTavern，本次没有写入聊天。"
safe_message StErrorCode.st_request_timeout = "请求 SillyTavern 超时，本次没有写入聊天。"
safe_message StErrorCode.st_csrf_fetch_failed = "无法获取 SillyTavern 会话凭证，本次没有写入聊天。"
safe_message StErrorCode.st_csrf_missing = "SillyTavern 会话缺少必要凭证，本次没有写入聊天。"
safe_message StErrorCode.st_session_rejected = "SillyTavern 拒绝了本次会话，本次没有写入聊天。"
safe_message StErrorCode.st_character_list_failed = "无法读取 SillyTavern 角色列表，本次没有写入聊天。"
safe_message StErrorCode.st_chat_list_failed = "无法读取 SillyTavern 聊天列表，本次没有写入聊天。"
safe_message StErrorCode.st_chat_not_found = "找不到对应的 SillyTavern 聊天，本次没有写入。"
safe_message StErrorCode.st_chat_payload_invalid = "SillyTavern 返回的聊天内容无法解析，本次没有写入聊天。"
safe_message StErrorCode.st_settings_invalid = "SillyTavern 设置无效或无法解析，本次没有写入聊天。"
safe_message StErrorCode.st_generate_rejected = "SillyTavern 拒绝了本次生成请求，内容没有写入聊天。"
safe_message StErrorCode.st_generate_rate_limited = "SillyTavern 生成请求过于频繁，本次内容没有写入聊天。"
safe_message StErrorCode.st_generate_upstream_5xx = "ST 的模型后端返回错误，本次内容没有写入聊天。"
safe_message StErrorCode.st_generate_idle_timeout = "SillyTavern 生成长时间没有输出，本次内容没有写入聊天。"
safe_message StErrorCode.st_generate_hard_timeout = "SillyTavern 生成达到时间上限，本次内容没有写入聊天。"
safe_message StErrorCode.st_generate_stream_invalid = "SillyTavern 生成流格式无效，本次内容没有写入聊天。"
safe_message StErrorCode.st_generate_empty = "SillyTavern 生成结束但没有文本，本次内容没有写入聊天。"
safe_message StErrorCode.st_generate_state_unknown = "无法确认 SillyTavern 是否已生成，请先对账后再处理。"
safe_message StErrorCode.st_connector_unavailable = "无法连接写入服务，本次没有写入聊天。"
safe_message StErrorCode.st_connector_auth_failed = "写入服务鉴权失败，本次没有写入聊天。"
safe_message StErrorCode.st_connector_version_mismatch = "写入服务版本不兼容，本次没有写入聊天。"
safe_message StErrorCode.st_connector_media_type_rejected = "写入请求格式被拒绝，本次没有写入聊天。"
safe_message StErrorCode.st_write_not_ready = "ST backend 未接入，聊天功能已冻结，本次未写入 SillyTavern。"
safe_message StErrorCode.st_test_scope_required = "当前只能写入测试聊天，本次没有写入。"
safe_message StErrorCode.st_poller_not_owner = "当前运行实例不是该 Bot 的所有者，本次没有写入。"
safe_message StErrorCode.st_poller_epoch_mismatch = "当前运行实例持有过期所有权，本次没有写入。"
safe_message StErrorCode.st_chat_locator_rejected = "聊天定位信息不合法，本次没有写入。"
safe_message StErrorCode.st_chat_integrity_missing = "聊天缺少完整性标记，本次没有写入。"
safe_message StErrorCode.st_chat_conflict = "生成期间该聊天已被更新，本次没有覆盖新内容。"
safe_message StErrorCode.st_operation_id_reused = "操作标识被重复使用，本次没有写入。"
safe_message StErrorCode.st_backup_failed = "写入前备份失败，本次没有写入聊天。"
safe_message StErrorCode.st_backup_quota_exceeded = "备份空间不足，本次没有写入聊天。"
safe_message StErrorCode.st_write_verify_failed = "写入后校验失败，尚未确认聊天是否已更新。"
safe_message StErrorCode.st_commit_payload_too_large = "写入内容过大，本次没有写入聊天。"
safe_message StErrorCode.st_commit_validation_failed = "写入内容未通过校验，本次没有写入聊天。"
safe_message StErrorCode.st_commit_failed = "保存聊天失败，本次没有写入。"
safe_message StErrorCode.st_commit_state_unknown = "无法确认聊天是否已保存，请先对账后再处理。"
safe_message StErrorCode.st_delivery_failed = "ST 内容已写入；Telegram 投递失败。"
